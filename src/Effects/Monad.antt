-- ===== src/Effects/Monad.antt =====
-- Histories, the answers to calls, exceptions, and the state-and-exception monad of the driver.
use zfs_live_xapi.Prelude.{ℕ, String, Bool, true, false, Option, none, some, List, ◌∷◌, ◌==◌}

-- The four libzfs_core ioctls that the driver makes, by their arguments.
pub data LzcCall : Type 0 where
  destroy snapshot : String → LzcCall
  clone : String → String → LzcCall
  create : String → ℕ → ℕ → LzcCall

-- Calls of libcow's metabase that the driver makes.
pub data DbCall : Type 0 where
  insert_new_volume : ℕ → ℕ → DbCall
  insert_child_volume : Option ℕ → Option ℕ → Bool → DbCall
  insert_vdi : String → String → String → ℕ → Bool → DbCall
  update_volume_vsize : ℕ → Option ℕ → DbCall
  get_vdi_by_id get_vdi_custom_keys : String → DbCall
  get_vdi_for_volume : Option ℕ → DbCall
  get_all_vdis get_all_vdi_custom_keys : DbCall
  delete_vdi : String → DbCall
  volume_destroy delete_volume : ℕ → DbCall
  set_vdi_custom_key : String → String → String → DbCall
  delete_vdi_custom_key : String → String → DbCall

-- `VolumeContext(cb, sr, mode)`, `PollLock(opq, "gl", cb, 0.5)` and `cb.db_context(opq)`, by the SR.
pub data Scope : Type 0 where
  volume_context : String → String → Scope
  poll_lock db_context : String → Scope

-- What `zfs_features.probe` finds: a version, the flags of the pool, and what they allow.
pub record ZfsFeatures : Type 0 where
  pub version : Option (ℕ × ℕ × ℕ)
  pub feature_flags : List (String × String)
  pub capabilities : List (String × Bool)

-- Writes beside ZFS: the metadata of an SR (its entries and its VDI defaults), the database that
-- libcow makes in a directory, the removal of a directory, and the sidecar of the features.
pub data FileCall : Type 0 where
  update_sr_metadata : String → List (String × String) → List (String × String) → FileCall
  create_database rmdir clear_cached : String → FileCall
  set_cached : String → ZfsFeatures → FileCall

-- A look at a file, a directory or a process, a write of a file, and the rest.
pub data Event : Type 0 where
  looked : String → Event
  filed : FileCall → Event
  spawned : List String → Event
  piped : List String → List String → Event
  ioctl : LzcCall → Event
  database : DbCall → Event
  entered left : Scope → Event
  slept minted : Event

abbrev pub History : Type 0
History = List Event

-- A subprocess's exit status, negative in Python for a process that a signal ended.
pub data ReturnCode : Type 0 where
  exited signalled : ℕ → ReturnCode

abbrev pub is_code : ℕ → ReturnCode → Bool
is_code n (exited m) = m == n
is_code n (signalled m) = false

pub record Completed : Type 0 where
  pub stdout : String
  pub stderr : String
  pub returncode : ReturnCode

-- Exceptions by what they tell: the first three are `xapi.InternalError`, with the values that
-- the message is formatted from.
pub data Error : Type 0 where
  command_failed : List String → ReturnCode → String → Error
  lzc_failed : LzcCall → ℕ → Error
  unmount_failed : String → String → Error
  storage_error : String → List String → Error
  called_process_error : List String → ReturnCode → Error
  os_error runtime_error value_error type_error unimplemented eof_error unpickling_error key_error :
      Error
  sr_not_attached : String → Error
  library_error : ℕ → Error

abbrev pub is_internal_error : Error → Bool
is_internal_error (command_failed cmd rc stderr) = true
is_internal_error (lzc_failed call rc) = true
is_internal_error (unmount_failed root name) = true
is_internal_error _ = false

pub data Result {ℓ} (A : Type ℓ) : Type ℓ where
  ok : A → Result A
  err : Error → Result A

pub record VolumeRow : Type 0 where
  pub id : ℕ
  pub parent_id : Option ℕ
  pub vsize : Option ℕ
  pub snap : Bool

pub record Vdi : Type 0 where
  pub uuid : String
  pub name : String
  pub description : String
  pub image_type : ℕ
  pub sharable : Bool
  pub volume : VolumeRow

-- The metadata file of a datapath daemon: none, one that cannot be read, or one with a process.
pub data DpMetadata : Type 0 where
  no_metadata : DpMetadata
  unreadable : Error → DpMetadata
  with_pid : Option ℕ → DpMetadata

-- The answers of what is not the driver's code: the zfs and zpool commands, the kernel, libcow and
-- `uuid4`. A call of the metabase and the entry and exit of a scope may raise.
pub record World : Type 0 where
  pub run : History → List String → Option Completed
  pub pipe : History → List String → List String → Option (ReturnCode × ReturnCode)
  pub lzc : History → LzcCall → ℕ
  pub refuses : History → DbCall → Option Error
  pub blocks : History → Scope → Option Error
  pub spoils : History → Scope → Option Error
  pub volume_id : History → DbCall → ℕ
  pub vdi : History → String → Vdi
  pub vdi_of_volume : History → Option ℕ → Option Vdi
  pub custom_keys : History → String → List (String × String)
  pub uuid4 : History → String
  -- The base class of `ImageFormat`: its raw type, and the URI prefix of a type that it knows.
  pub image_raw : ℕ
  pub base_format : ℕ → Option String
  -- The candidates for each shared library, in the order in which they are tried: `none` for one that
  -- does not load, and the exported symbols of one that does; and what `libzfs_core_init` returns.
  pub zfs_core : List (Option (List String))
  pub nvpair : List (Option (List String))
  pub init_rc : ℕ
  -- The first 16 digits of a SHA-256, the metadata under such a key, whether a process is alive, and
  -- the clock.
  pub sha256_16 : String → String
  pub dp_metadata : History → String → DpMetadata
  pub is_alive : History → ℕ → Bool
  pub now : History → ℕ
  -- All the rows of the metabase, directories, the metadata of an SR, the sidecar with the features, and the writes that fail.
  pub all_vdis : History → List Vdi
  pub all_custom_keys : History → List (String × List (String × String))
  pub is_dir : History → String → Bool
  pub is_empty_dir : History → String → Bool
  pub sr_metadata : History → String → Result (List (String × String))
  pub sidecar : History → String → Option ZfsFeatures
  pub fails : History → FileCall → Option Error

abbrev pub M {ℓ} : Type ℓ → Type ℓ
M A = History → Result A × History

module _ {ℓ} {A : Type ℓ} where
  abbrev pub pure : A → M A
  pure a h = (ok a, h)

  abbrev pub raise : Error → M A
  raise e h = (err e, h)

  -- `try: m except Exception as e: handler`
  abbrev pub try_except : M A → (Error → M A) → M A
  try_except m handler h = let (r, h') = m h in elim r [ ok a ↦ (ok a, h') | err e ↦ handler e h' ]

  -- `raise` where an optional error is one.
  abbrev pub unless_error : Option Error → A → Result A
  unless_error none a = ok a
  unless_error (some e) a = err e

infixl 5 ◌>>=◌ ◌>>◌
abbrev pub ◌>>=◌ {ℓ κ} : {A : Type ℓ} {B : Type κ} → M A → (A → M B) → M B
◌>>=◌ m f h = let (r, h') = m h in elim r [ ok a ↦ f a h' | err e ↦ (err e, h') ]

abbrev pub ◌>>◌ {ℓ κ} : {A : Type ℓ} {B : Type κ} → M A → M B → M B
m >> k = m >>= λ _. k

module _ (w : World) where
  unfoldable pub spawn : List String → M Completed
  spawn cmd h = (elim (w.run h cmd) [ none ↦ err os_error | some c ↦ ok c ], spawned cmd ∷ h)

  unfoldable pub call_lzc : LzcCall → M ℕ
  call_lzc c h = (ok (w.lzc h c), ioctl c ∷ h)

  unfoldable pub sleep : M (Unit {0})
  sleep h = (ok tt, slept ∷ h)

  unfoldable pub mint_uuid : M String
  mint_uuid h = (ok (w.uuid4 h), minted ∷ h)

  -- A call of the metabase whose answer is `answer`, or which raises.
  abbrev pub ask {ℓ} : {A : Type ℓ} → DbCall → (History → A) → M A
  ask c answer h = (unless_error (w.refuses h c) (answer h), database c ∷ h)

  -- `with scope: body`, where the exit does not swallow an exception, and may raise one of its own.
  unfoldable pub within {ℓ} : {A : Type ℓ} → Scope → M A → M A
  within scope body h = elim (w.blocks h scope) [
    | some e ↦ (err e, h)
    | none ↦
        let (r, h') = body (entered scope ∷ h) in
        (elim (w.spoils h' scope) [ none ↦ r | some e ↦ err e ], left scope ∷ h')
  ]

  -- A look at what `path` names, with this answer or exception, and a write of a file.
  abbrev pub look {ℓ} : {A : Type ℓ} → String → (History → Result A) → M A
  look path answer h = (answer h, looked path ∷ h)

  unfoldable pub write_file : FileCall → M (Unit {0})
  write_file c h = (unless_error (w.fails h c) tt, filed c ∷ h)
