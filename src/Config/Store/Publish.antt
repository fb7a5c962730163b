-- ===== src/Config/Store/Publish.antt =====
-- What a Save publishes, and what it leaves alone.
use newapi_box.Prelude.{
  ◌≡◌, ◌≢◌, refl, ◌⊎◌, inl, inr, List, [], ◌∷◌, ◌++◌, Option, none, some, ap, sym, subst, ◌∙◌,
  Option-cases,
}
use newapi_box.Prelude.Int.{ℤ}
use newapi_box.Text.{Text}
use newapi_box.Config.{Config, normalize, clone}
use newapi_box.Config.Validate.{Error, validate}
use newapi_box.Config.Valid.{IsValid, validate_iff}
use newapi_box.Config.File.{Answers, FileError, Run, final, write_file}
use newapi_box.Config.File.Crash.{write_file_success}
use newapi_box.Config.Store.{Store, invalid, save, save_all, write_if_valid, publish_if_written}

publish_if_written-none :
    (s : Store) (c : Config) (r : Run) (e : Option FileError)
    → (publish_if_written s c r e).1 ≡ none
    → (e ≡ none) × ((publish_if_written s c r e).0 ≡ record s { disk = final r; current = some c })
unfolding publish_if_written
publish_if_written-none s c r none h = (refl, refl)
publish_if_written-none s c r (some e) h = cc

publish_if_written-some :
    (s : Store) (c : Config) (r : Run) (e : Option FileError)
    → (publish_if_written s c r e).1 ≢ none
    → ((publish_if_written s c r e).0.current ≡ s.current)
unfolding publish_if_written
publish_if_written-some s c r none h = absurd (h refl)
publish_if_written-some s c r (some e) h = refl

module _ (encode : Config → Option Text) (a : Answers) (s : Store) (c : Config) where
  abbrev run : Run
  run = write_file a s.path (encode c) s.disk

  write_if_valid-none :
      (v : Option Error)
      → (write_if_valid encode a s c v).1 ≡ none
      → (v ≡ none)
        × (run.error ≡ none)
        × ((write_if_valid encode a s c v).0 ≡ record s { disk = final run; current = some c })
  unfolding write_if_valid
  write_if_valid-none none h =
      let (e, t) = publish_if_written-none s c run run.error h in (refl, e, t)
  write_if_valid-none (some e) h = cc

  write_if_valid-some :
      (v : Option Error)
      → (write_if_valid encode a s c v).1 ≢ none
      → (write_if_valid encode a s c v).0.current ≡ s.current
  unfolding write_if_valid
  write_if_valid-some none h = publish_if_written-some s c run run.error h
  write_if_valid-some (some e) h = refl

  write_if_valid-invalid :
      {v : Option Error} {e : Error}
      → v ≡ some e
      → write_if_valid encode a s c v ≡ (s, some (invalid e))
  unfolding write_if_valid
  write_if_valid-invalid h = rw (h, write_if_valid)

module _ (parse_duration : Text → Option ℤ) (encode : Config → Option Text) where
  -- A configuration that Validate refuses, after Normalize, reaches neither the snapshot nor the
  -- disk, and Save returns the error of Validate.
  save_invalid :
      (a : Answers) (s : Store) (cfg : Option Config) (e : Error)
      → validate parse_duration (some (normalize (clone cfg))) ≡ some e
      → save parse_duration encode a s cfg ≡ (s, some (invalid e))
  unfolding save
  save_invalid a s cfg e h = write_if_valid-invalid encode a s (normalize (clone cfg)) h

  -- What a Save that returns nil has done: the normalized configuration is published and valid,
  -- and its encoding with a line feed is the content of the file.
  pub record IsPublished (s t : Store) (cfg : Option Config) : Type 0 where
    pub published : t.current ≡ some (normalize (clone cfg))
    pub valid : IsValid parse_duration (normalize (clone cfg))
    pub content : Text
    pub encoded : encode (normalize (clone cfg)) ≡ some content
    pub on_disk : t.disk ≡ record { target = some (content ++ b'\n' ∷ []); temp = none }
    pub same_path : t.path ≡ s.path

  -- A Save that returns nil has published the normalized configuration, which is valid, and has its
  -- encoding with a line feed in the file, with no temporary file left and the path as it was.
  pub save-IsPublished :
      (a : Answers) (s : Store) (cfg : Option Config)
      → (save parse_duration encode a s cfg).1 ≡ none
      → IsPublished s (save parse_duration encode a s cfg).0 cfg
  unfolding save
  save-IsPublished a s cfg h =
      let (v, e, t) = write_if_valid-none encode a s (normalize (clone cfg)) _ h in
      let (content, encoded, written) = write_file_success a s.path _ s.disk e in
      record {
        published = ap (λ u. u.current) t;
        valid = (validate_iff parse_duration (normalize (clone cfg))).0 v;
        content = content;
        encoded = encoded;
        on_disk = ap (λ u. u.disk) t ∙ written;
        same_path = ap (λ u. u.path) t;
      }

  -- A Save that fails, in whatever way, leaves the snapshot as it was.
  pub save_failure :
      (a : Answers) (s : Store) (cfg : Option Config)
      → (save parse_duration encode a s cfg).1 ≢ none
      → (save parse_duration encode a s cfg).0.current ≡ s.current
  unfolding save
  save_failure a s cfg h = write_if_valid-some encode a s (normalize (clone cfg)) _ h

  -- The snapshot is that of the seed, or one that Normalize made and Validate accepted.
  abbrev pub IsServed : Store → Store → Type 0
  IsServed seed s =
      (s.current ≡ seed.current)
      ⊎ ((c : Config) × (s.current ≡ some (normalize c)) × IsValid parse_duration (normalize c))

  pub save-IsServed :
      (a : Answers) (seed s : Store) (cfg : Option Config)
      → IsServed seed s
      → IsServed seed (save parse_duration encode a s cfg).0
  save-IsServed a seed s cfg h = elim (Option-cases (save parse_duration encode a s cfg).1) [
    | inl ok ↦ let p = save-IsPublished a s cfg ok in inr (clone cfg, p.published, p.valid)
    | inr (e, failed) ↦
        subst
          (λ cur.
            (cur ≡ seed.current)
            ⊎ ((c : Config) × (cur ≡ some (normalize c)) × IsValid parse_duration (normalize c)))
          (sym (save_failure a s cfg (λ x. cc (x, failed)))) h
  ]

  save_all-IsServed :
      (seed s : Store) (saves : List (Answers × Option Config))
      → IsServed seed s
      → IsServed seed (save_all parse_duration encode s saves)
  unfolding save_all
  save_all-IsServed seed s [] h = h
  save_all-IsServed seed s ((a, cfg) ∷ rest) h =
      save_all-IsServed seed (save parse_duration encode a s cfg).0 rest
        (save-IsServed a seed s cfg h)

  -- Whatever Saves are made, by whomever, and whatever the disk answers, a reader sees the seed's
  -- snapshot or a normalized configuration that Validate accepts.
  pub serves_valid :
      (s : Store) (saves : List (Answers × Option Config))
      → IsServed s (save_all parse_duration encode s saves)
  serves_valid s saves = save_all-IsServed s s saves (inl refl)
