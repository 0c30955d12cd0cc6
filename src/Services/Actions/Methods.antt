-- ===== src/Services/Actions/Methods.antt =====
-- internal/services/actions.go: changing the recording method.
use dabri.Prelude.{◌≡◌, false, not, ◌&&◌, none, arith, is_some}
use dabri.Text.{Text, text_eq_iff}
use dabri.Config.Service.{Disk, update, update_recording_method}
use dabri.Services.Io.{Desktop}
use dabri.Services.Audio.{
  StartWorld, start_standard_recording, ensure_recorder, handle_start_recording, clear_session,
}
use dabri.Services.Actions.{Container, config_of, set_recording_method}

method-method :
    (disk : Disk) (method : Text) (c : Container)
    → (update_recording_method disk method (config_of c)).1 ≡ none
    → (update_recording_method disk method (config_of c)).0.current.audio.recording_method ≡ method
unfolding update_recording_method update
method-method disk method c h =
    ground (arith, h, text_eq_iff (config_of c).current.audio.recording_method method)

-- After a change of the recording method that returns no error, the method is configured, and a
-- service that does not record uses no old recorder: it starts only if a new one can be made.
method-restart :
    (desktop : Desktop) (method : Text) (world : StartWorld) (c : Container)
    → (set_recording_method desktop method c).1 ≡ none
    → c.audio.is_recording ≡ false
    → let c' = (set_recording_method desktop method c).0 in
      ((config_of c').current.audio.recording_method ≡ method)
      × (is_some (handle_start_recording world c'.audio).1
          ≡ not (world.has_model && (world.makes_recorder && world.starts)))
unfolding set_recording_method clear_session handle_start_recording ensure_recorder
    start_standard_recording
method-restart desktop method world c h r =
    ground (arith, h, r, method-method desktop.disk method c)
