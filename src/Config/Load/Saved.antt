-- ===== src/Config/Load/Saved.antt =====
-- config/loaders/yaml_loader.go: what is loaded.
use dabri.Config.Sane.{IsSane, validate-IsSane}
use dabri.Config.Load.{
  Loaded, Read, load_config, loaded, missing, Config, Files, unreadable, Text, failed, bytes, clean,
  contains, codes,
}
use dabri.Prelude.{◌≡◌, refl, ◌⊎◌, Bool-cases, inl, inr, Option-cases}

-- A configuration that was loaded is sane; nothing is said of an error.
abbrev pub IsSaneLoad : Loaded → Type 0
IsSaneLoad (loaded c) = IsSane c
IsSaneLoad (failed e) = Unit

Read-cases : (r : Read) → (r ≡ missing) ⊎ ((r ≡ unreadable) ⊎ ((d : Text) × (r ≡ bytes d)))
Read-cases missing = inl refl
Read-cases unreadable = inr (inl refl)
Read-cases (bytes d) = inr (inr (d, refl))

-- With defaults that are sane, any configuration that `LoadConfig` returns is sane, whatever the file
-- says and whether it can be read or not.
pub load-IsSaneLoad :
    (defaults : Config) (files : Files) (filename : Text)
    → IsSane defaults
    → IsSaneLoad (load_config defaults files filename).0
unfolding load_config
load-IsSaneLoad defaults files filename h =
    elim (Bool-cases (contains (clean filename) (codes ".."))) [
      | inl e ↦ rw e tt
      | inr e ↦ elim (Read-cases (files.read (clean filename))) [
        | inl m ↦ rw (e, m) h
        | inr r ↦ elim r [
          | inl u ↦ rw (e, u) h
          | inr (d, p) ↦ elim (Option-cases (files.unmarshal defaults d)) [
            | inl n ↦ rw (e, p, n) tt
            | inr (c, n) ↦ rw (e, p, n) (validate-IsSane c)
          ]
        ]
      ]
    ]
