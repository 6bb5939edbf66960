-- ===== src/Files/Config.antt =====
-- src/FileHandler.cpp: loading, saving and resetting the configuration.
use Prim.Native.String.{String}
use text.Mathlib.Text.{◌==◌}
use text.Mathlib.TextPositions.{eq_refl}
use byte_waterlevel.Prelude.{
  ◌≡◌, refl, ap, ◌∙◌, Bool-cases, inl, inr, true, false, none, some, arith, if◌then◌else◌,
}
use byte_waterlevel.Json.{JsonLib, ReadsBack}
use byte_waterlevel.Files.{
  Files, config_path, backup_path, line_end, exists, read_file, save_file, copy_file, reset,
  load_config,
}

module _ {J : Type 0} where
  pub storage-save_file :
      (path content : String) (f : Files J) (q : String)
      → f.writable ≡ true
      → (save_file path content f).storage q
        ≡ (if path == q then some (line_end content) else f.storage q)
  unfolding save_file
  storage-save_file path content f q w = rw w

  pub writable-save_file :
      (path content : String) (f : Files J) → (save_file path content f).writable ≡ f.writable
  unfolding save_file
  writable-save_file path content f = ground arith

  config-save_file :
      (path content : String) (f : Files J) → (save_file path content f).config ≡ f.config
  unfolding save_file
  config-save_file path content f = ground arith

  read_file-some :
      (path content : String) (f : Files J)
      → f.storage path ≡ some content
      → read_file path f ≡ content
  unfolding read_file
  read_file-some path content f e = rw (e, read_file)

  read_file-none : (path : String) (f : Files J) → f.storage path ≡ none → read_file path f ≡ ""
  unfolding read_file
  read_file-none path f e = rw (e, read_file)

  exists_some :
      (path content : String) (f : Files J) → f.storage path ≡ some content → exists path f ≡ true
  unfolding exists
  exists_some path content f e = rw (e, exists)

  exists_none : (path : String) (f : Files J) → f.storage path ≡ none → exists path f ≡ false
  unfolding exists
  exists_none path f e = rw (e, exists)

  pub save_file_unwritable :
      (path content : String) (f : Files J) → f.writable ≡ false → save_file path content f ≡ f
  unfolding save_file
  save_file_unwritable path content f w = ground arith

  copy_file_unwritable :
      (source destination : String) (f : Files J)
      → f.writable ≡ false
      → (copy_file source destination f).1 ≡ f
  unfolding copy_file
  copy_file_unwritable source destination f w =
      save_file_unwritable destination (read_file source f) f w

  -- If the source is missing, a copy on a writable flash overwrites its destination by an empty line
  -- and reports success all the same.
  copy_file_missing :
      (source destination : String) (f : Files J)
      → f.writable ≡ true
      → f.storage source ≡ none
      → ((copy_file source destination f).0 ≡ true)
        × ((copy_file source destination f).1.storage destination ≡ some (line_end ""))
  unfolding copy_file
  copy_file_missing source destination f w e = (
    refl,
    rw (read_file-none source f e)
        (storage-save_file destination "" f destination w ∙ simp eq_refl),
  )

  -- What `reset` leaves: the backup's content, with a line end, as the configuration file.
  storage-reset :
      (content : String) (f : Files J)
      → f.writable ≡ true
      → f.storage backup_path ≡ some content
      → (reset f).storage config_path ≡ some (line_end content)
  unfolding reset copy_file
  storage-reset content f w e =
      rw (read_file-some backup_path content f e)
        (storage-save_file config_path content f config_path w)

  pub storage-reset_missing :
      (f : Files J)
      → f.storage backup_path ≡ none
      → (reset f).storage config_path
        ≡ (if f.writable then some (line_end "") else f.storage config_path)
  unfolding reset
  storage-reset_missing f e = elim (Bool-cases f.writable) [
    | inl w ↦ simp w ((copy_file_missing backup_path config_path f w e).1)
    | inr w ↦
        simp w (ap (λ g. g.storage config_path) (copy_file_unwritable backup_path config_path f w))
  ]

  -- A reset leaves the configuration in memory.
  pub config-reset : (f : Files J) → (reset f).config ≡ f.config
  unfolding reset copy_file
  config-reset f = config-save_file config_path (read_file backup_path f) f

module _ {F : Type 0} (J : JsonLib F) where
  pub load_config-backup :
      (f : Files J.Json)
      → ((load_config J f).storage backup_path ≡ f.storage backup_path)
        × ((load_config J f).writable ≡ f.writable)
  unfolding load_config copy_file save_file
  load_config-backup f = ground arith

  -- What is in memory before does not matter.
  pub load_config-config :
      (config : J.Json) (f : Files J.Json)
      → load_config J (record f { config = config }) ≡ load_config J f
  unfolding load_config copy_file save_file read_file exists
  load_config-config config f = ground arith

  pub load_config-some :
      (f : Files J.Json) (content : String)
      → f.storage config_path ≡ some content
      → (load_config J f).config ≡ (J.parse content).0
  unfolding load_config
  load_config-some f content e =
      rw (exists_some config_path content f e) (rw (read_file-some config_path content f e))

  -- Without a configuration file, on a writable flash: the backup's text with a line end, or an empty
  -- line, becomes the file.
  pub load_config-none :
      (f : Files J.Json)
      → f.writable ≡ true
      → f.storage config_path ≡ none
      → let text = line_end (read_file backup_path f) in
        ((load_config J f).storage config_path ≡ some text)
        × ((load_config J f).config ≡ (J.parse text).0)
  unfolding load_config copy_file
  load_config-none f w e =
      let text = read_file backup_path f in
      let copied = save_file config_path text f in
      let stored : copied.storage config_path ≡ some (line_end text) =
        storage-save_file config_path text f config_path w in
      rw (exists_none config_path f e)
        (stored, ap (λ r. (J.parse r).0) (read_file-some config_path _ copied stored))

  -- On a flash that cannot be written a start leaves the files, and reads what is there.
  load_config_unwritable :
      (f : Files J.Json)
      → f.writable ≡ false
      → load_config J f ≡ record f { config = (J.parse (read_file config_path f)).0 }
  unfolding load_config copy_file save_file
  load_config_unwritable f w = ground arith

  -- Without either file a start reads an empty text: the line that it writes, if the flash can be
  -- written.
  pub load_config_blank :
      (f : Files J.Json)
      → f.storage config_path ≡ none
      → f.storage backup_path ≡ none
      → let f' = load_config J f in
        (f'.storage config_path ≡ (if f.writable then some (line_end "") else none))
        × (f'.config ≡ (J.parse (if f.writable then line_end "" else "")).0)
  load_config_blank f no_config no_backup = elim (Bool-cases f.writable) [
    | inl w ↦
        simp w (rw (read_file-none backup_path f no_backup) at (load_config-none f w no_config))
    | inr w ↦
        let same = load_config_unwritable f w in
        simp w (
          ap (λ g. g.storage config_path) same ∙ no_config,
          ap (λ g. g.config) same
              ∙ ap (λ t. (J.parse t).0) (read_file-none config_path f no_config),
        )
  ]

  pub load_config-kept :
      (f : Files J.Json) (content : String)
      → f.storage config_path ≡ some content
      → (load_config J f).storage config_path ≡ some content
  unfolding load_config
  load_config-kept f content e = rw (exists_some config_path content f e) e

  -- Where the JSON library reads back what it wrote, a configuration that is saved to a writable
  -- flash is the one that the next start loads.
  load_config-save_file :
      (j : J.Json) (f : Files J.Json)
      → ReadsBack J j
      → f.writable ≡ true
      → (load_config J (save_file config_path (J.serialize j) f)).config ≡ j
  load_config-save_file j f reads w =
      load_config-some _ _ (storage-save_file config_path (J.serialize j) f config_path w)
      ∙ ap (λ r. r.0) reads

  -- After a reset on a writable flash, the next start loads the configuration of the backup, if the
  -- backup is what the library writes for it. Until then the configuration in memory stays.
  pub load_config-reset :
      (b : J.Json) (f : Files J.Json)
      → ReadsBack J b
      → f.writable ≡ true
      → f.storage backup_path ≡ some (J.serialize b)
      → ((load_config J (reset f)).config ≡ b) × ((reset f).config ≡ f.config)
  load_config-reset b f reads w e = (
    load_config-some _ _ (storage-reset (J.serialize b) f w e) ∙ ap (λ r. r.0) reads,
    config-reset f,
  )

  -- A start without a configuration file, on a writable flash with a backup that the library
  -- wrote, loads the backup's configuration and leaves a configuration file with its text.
  load_config_first :
      (b : J.Json) (f : Files J.Json)
      → ReadsBack J b
      → f.writable ≡ true
      → f.storage config_path ≡ none
      → f.storage backup_path ≡ some (J.serialize b)
      → let f' = load_config J f in
        (f'.config ≡ b) × (f'.storage config_path ≡ some (line_end (J.serialize b)))
  load_config_first b f reads w missing e =
      let copied =
        rw (read_file-some backup_path (J.serialize b) f e) at (load_config-none f w missing) in
      (copied.1 ∙ ap (λ r. r.0) reads, copied.0)
