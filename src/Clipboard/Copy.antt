-- ===== src/Clipboard/Copy.antt =====
-- one-true-pairing/src/main.rs: `copy_dispatch` and `clear_dispatch`.
use one_true_pairing.Common.{Option, none, some, List, [], ◌∷◌}
use one_true_pairing.Common.Bytes.{Bytes, Endian}
use one_true_pairing.WhaleLand.Error.{ObjectId}
use one_true_pairing.WhaleLand.Exec.{Exec, pure, ◌>>=◌}
use one_true_pairing.WhaleLand.Protocol.{string, object, new_id}
use one_true_pairing.WhaleLand.Protocol.ExtDataControl.{
  manager_request_create_data_source, device_request_set_selection, source_request_offer,
  source_request_destroy,
}
use one_true_pairing.Clipboard.State.{
  Client, plain_text_mime_types_sorted, get_data, put_data, get_and_increment_next_object_id,
  request,
}

module _ (en : Endian) where
  unfoldable pub offer_types : ObjectId → List Bytes → Exec Client (Unit {0})
  offer_types source_id [] = pure tt
  offer_types source_id (t ∷ ts) = do
    _ ← request en source_request_offer (string t ∷ []) source_id
    offer_types source_id ts

  -- A new source, and it becomes the selection of the device.
  unfoldable pub publish : ObjectId → ObjectId → Exec Client (Unit {0})
  publish manager_id device_id = do
    source_id ← get_and_increment_next_object_id
    _ ← request en manager_request_create_data_source (new_id source_id ∷ []) manager_id
    _ ← offer_types source_id plain_text_mime_types_sorted
    _ ← request en device_request_set_selection (object (some source_id) ∷ []) device_id
    data_of ← get_data
    put_data (record data_of { clipboard_source_id = some source_id })

  -- What is left to do depends on the source, the manager and the device.
  unfoldable pub publish_new :
      Option ObjectId → Option ObjectId → Option ObjectId → Exec Client (Unit {0})
  publish_new (some source_id) _ _ = pure tt
  publish_new none (some manager_id) (some device_id) = publish manager_id device_id
  publish_new none _ _ = pure tt

  unfoldable pub copy_dispatch : Bytes → Exec Client (Unit {0})
  copy_dispatch new_content = do
    data_of ← get_data
    _ ← put_data (record data_of { clipboard_data = some new_content })
    publish_new data_of.clipboard_source_id data_of.clipboard_manager_id data_of.clipboard_device_id

  unfoldable pub destroy_source : Option ObjectId → Exec Client (Unit {0})
  destroy_source none = pure tt
  destroy_source (some source_id) = do
    _ ← request en source_request_destroy [] source_id
    data_of ← get_data
    put_data (record data_of { clipboard_source_id = none })

  unfoldable pub clear_dispatch : Exec Client (Unit {0})
  clear_dispatch = do
    data_of ← get_data
    _ ← put_data (record data_of { clipboard_data = none })
    destroy_source data_of.clipboard_source_id
