-- ===== src/Config/Security/Integrity.antt =====
-- Sealing a configuration with the hash of its file, and the check against it.
use dabri.Prelude.{◌≡◌, ◌↔◌, true, false, Option, none, some, arith, is_empty}
use dabri.Text.{Text, text_eq_iff}
use dabri.Config.Model.{Config}
use dabri.Config.Security.{verify_config_integrity, update_config_hash}

-- Where the check is on, a configuration that was sealed with a non-empty hash passes it exactly
-- when the file can be read and has that hash.
seal_iff :
    (config : Config) (h : Text) (found : Option Text)
    → config.security.check_integrity ≡ true
    → is_empty h ≡ false
    → (verify_config_integrity found (update_config_hash (some h) config).0 ≡ none)
      ↔ (found ≡ some h)
unfolding verify_config_integrity update_config_hash
seal_iff config h none c e = ground (arith, c, e)
seal_iff config h (some g) c e = ground (arith, c, e, text_eq_iff g h)
