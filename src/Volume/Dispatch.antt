-- ===== src/Volume/Dispatch.antt =====
-- `call_volume_command`: one request to the plugin, by the name that it is called under.
use zfs_live_xapi.Prelude.{ℕ, String, Bool, Option, List, [], ◌∷◌}
use zfs_live_xapi.Effects.{World, M, pure, raise, unimplemented, ◌>>◌, History}
use zfs_live_xapi.Volume.Metabase.{SrMeta}
use zfs_live_xapi.Volume.Datapath.{Datapath}
use zfs_live_xapi.Volume.Create
use zfs_live_xapi.Volume.Destroy
use zfs_live_xapi.Volume.Resize
use zfs_live_xapi.Volume.Clones
use zfs_live_xapi.Volume.Copy
use zfs_live_xapi.Volume.Properties

-- The requests that are modelled, with the SR's metadata; `similar_content` answers with no VDI.
pub data Request : Type 0 where
  create : SrMeta → String → String → ℕ → Bool → Request
  import_existing : SrMeta → String → String → String → ℕ → Bool → Request
  destroy stat snapshot clone similar_content : SrMeta → String → Request
  resize : SrMeta → String → ℕ → Request
  copy : String → SrMeta → Option SrMeta → String → Request
  set : SrMeta → String → String → String → Request
  unset : SrMeta → String → String → Request
  unknown : String → Request

module _ (w : World) (lower : String → String) (dp : Datapath) where
  unfoldable pub answer_with : {A : Type 0} → M A → M (Unit {0})
  answer_with m = do m; pure tt

  unfoldable pub call_volume_command : String → Request → M (Unit {0})
  call_volume_command sr (create meta name description size sharable) =
      answer_with (Create.create w sr meta name description size sharable)
  call_volume_command sr (import_existing meta key name description size sharable) =
      answer_with (Create.import_existing w sr meta key name description size sharable)
  call_volume_command sr (destroy meta key) = Destroy.destroy w dp sr meta key
  call_volume_command sr (stat meta key) = answer_with (Clones.stat w sr meta key)
  call_volume_command sr (snapshot meta key) = answer_with (Clones.snapshot w dp sr meta key)
  call_volume_command sr (clone meta key) = answer_with (Clones.clone w sr meta key)
  call_volume_command sr (similar_content meta key) = pure tt
  call_volume_command sr (resize meta key size) = Resize.resize w sr meta key size
  call_volume_command sr (copy dest_sr meta dest_meta key) =
      answer_with (Copy.copy w sr dest_sr meta dest_meta key)
  call_volume_command sr (set meta key k v) = Properties.set w lower sr meta key k v
  call_volume_command sr (unset meta key k) = Properties.unset w lower sr meta key k
  call_volume_command sr (unknown name) = raise unimplemented

  -- The history after a sequence of requests; one that raises does not stop the next.
  unfoldable pub serve : List (String × Request) → History → History
  serve [] h = h
  serve ((sr, request) ∷ requests) h = serve requests (call_volume_command sr request h).1
