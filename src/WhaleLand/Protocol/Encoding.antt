-- ===== src/WhaleLand/Protocol/Encoding.antt =====
-- The wire format of a field, and that the push functions of packet.rs write it.
use one_true_pairing.Common.{
  ℕ, ◌+◌, ◌<◌, ◌^◌, ◌≡◌, ap, sym, ◌∙◌, Bool, true, false, Option, some, none, List, [], ◌∷◌, ◌++◌,
  lt→leb, length, replicate, append-nil, append_assoc,
}
use one_true_pairing.Common.Int.{IsI32, i32_bits}
use one_true_pairing.Common.Bytes.{Bytes, Endian, to_ne_bytes, is_utf8}
use one_true_pairing.Wlproto.Model.{ArgType}
use one_true_pairing.Wlproto.Output.{
  Field, RustType, u32, i32, fixed_type, string_type, option_object_id, new_object_id, vec_u8,
  raw_fd, tokenize_incoming_arg_type, tokenize_arg_type_write_func,
}
use one_true_pairing.WhaleLand.Error.{ObjectId, NewObject, IsObjectId, ok}
use one_true_pairing.WhaleLand.Fixed.{inner_value}
use one_true_pairing.WhaleLand.Packet.{
  Packet, RawFd, contains_nul, realign_count, push_fd, push_uint, push_int, push_fixed, push_str,
  push_array, push_object, push_new_id_known_interface, push_new_id_unknown_interface,
}
use one_true_pairing.WhaleLand.Protocol.{
  Value, uint, int, fixed, string, object, new_id, new_object, array, fd, call_write, field_writes,
}

-- A Rust `String` that `push_str` takes: valid UTF-8 with no NUL, whose length with a terminator
-- is a `u32`.
pub record IsText (s : Bytes) : Type 0 where
  pub short : length s + 1 < 2 ^ 32
  pub no_nul : contains_nul s ≡ false
  pub utf8 : is_utf8 s ≡ true

abbrev pub IsSomeObjectId : Option ObjectId → Type 0
IsSomeObjectId none = Unit
IsSomeObjectId (some oid) = IsObjectId oid

pub record IsNewObject (o : NewObject) : Type 0 where
  pub object_id : IsObjectId o.object_id
  pub interface : IsText o.interface
  pub version : o.interface_version < 2 ^ 32

-- The value is one of the Rust type.
abbrev pub HasType : RustType → Value → Type 0
HasType u32 (uint v) = v < 2 ^ 32
HasType i32 (int v) = IsI32 v
HasType fixed_type (fixed v) = IsI32 (inner_value v)
HasType string_type (string v) = IsText v
HasType option_object_id (object v) = IsSomeObjectId v
HasType new_object_id (new_id v) = IsObjectId v
HasType RustType.new_object (new_object v) = IsNewObject v
HasType vec_u8 (array v) = length v < 2 ^ 32
HasType raw_fd (fd v) = Unit
HasType _ _ = ⊥

-- The value fits the field that is generated for the argument.
abbrev pub Fits : Field → Value → Type 0
Fits arg v = HasType (tokenize_incoming_arg_type arg.arg_type arg.known_interface) v

abbrev pub AllFit : List Field → List Value → Type 0
AllFit [] [] = Unit
AllFit (arg ∷ args) (v ∷ vs) = Fits arg v × AllFit args vs
AllFit _ _ = ⊥

abbrev pub object_number : Option ObjectId → ℕ
object_number none = 0
object_number (some oid) = oid

abbrev pub fds_of : Value → List RawFd
fds_of (fd v) = v ∷ []
fds_of _ = []

abbrev pub all_fds : List Value → List RawFd
all_fds [] = []
all_fds (v ∷ vs) = fds_of v ++ all_fds vs

-- The packet with more payload and more file descriptors.
abbrev pub appended : Packet → Bytes → List RawFd → Packet
appended p bs fs = record p { payload = p.payload ++ bs; fds = p.fds ++ fs }

appended-nil : (p : Packet) (bs : Bytes) → record p { payload = p.payload ++ bs } ≡ appended p bs []
appended-nil p bs =
    ap (λ fs. record p { payload = p.payload ++ bs; fds = fs }) (sym (append-nil p.fds))

appended-nil_nil : (p : Packet) → p ≡ appended p [] []
appended-nil_nil p =
    λ i. record p { payload = sym (append-nil p.payload) i; fds = sym (append-nil p.fds) i }

appended-appended :
    (p : Packet) (bs cs : Bytes) (fs gs : List RawFd)
    → appended (appended p bs fs) cs gs ≡ appended p (bs ++ cs) (fs ++ gs)
appended-appended p bs cs fs gs =
    λ i. record p { payload = append_assoc p.payload bs cs i; fds = append_assoc p.fds fs gs i }

module _ (en : Endian) where
  abbrev pub encode_text : Bytes → Bytes
  encode_text s =
      to_ne_bytes en (length s + 1) ++ (s ++ (0 ∷ replicate (realign_count (length s + 1)) 0))

  abbrev pub encode : Value → Bytes
  encode (uint v) = to_ne_bytes en v
  encode (int v) = to_ne_bytes en (i32_bits v)
  encode (fixed v) = to_ne_bytes en (i32_bits (inner_value v))
  encode (string v) = encode_text v
  encode (object v) = to_ne_bytes en (object_number v)
  encode (new_id v) = to_ne_bytes en v
  encode (new_object v) =
      encode_text v.interface ++ (to_ne_bytes en v.interface_version ++ to_ne_bytes en v.object_id)
  encode (array v) = to_ne_bytes en (length v) ++ (v ++ replicate (realign_count (length v)) 0)
  encode (fd v) = []

  abbrev pub encode_all : List Value → Bytes
  encode_all [] = []
  encode_all (v ∷ vs) = encode v ++ encode_all vs

  push_str_lem :
      (s : Bytes) (p : Packet)
      → IsText s
      → push_str en s p ≡ ok (record p { payload = p.payload ++ encode_text s })
  unfolding push_str
  push_str_lem s p t = rw (t.no_nul, lt→leb (2 ^ 32) (length s + 1) t.short)

  call_write_lem :
      (t : ArgType) (known : Bool) (v : Value) (p : Packet)
      → HasType (tokenize_incoming_arg_type t known) v
      → call_write en (tokenize_arg_type_write_func t known) v p
        ≡ ok (appended p (encode v) (fds_of v))
  unfolding call_write tokenize_incoming_arg_type tokenize_arg_type_write_func push_uint push_int
      push_fixed push_object push_new_id_known_interface push_new_id_unknown_interface push_array
      push_fd
  call_write_lem ArgType.uint known (uint v) p h = ap ok (appended-nil p _)
  call_write_lem ArgType.uint known _ p h = absurd h
  call_write_lem ArgType.int known (int v) p h = ap ok (appended-nil p _)
  call_write_lem ArgType.int known _ p h = absurd h
  call_write_lem ArgType.fixed known (fixed v) p h = ap ok (appended-nil p _)
  call_write_lem ArgType.fixed known _ p h = absurd h
  call_write_lem ArgType.string known (string v) p h = push_str_lem v p h ∙ ap ok (appended-nil p _)
  call_write_lem ArgType.string known _ p h = absurd h
  call_write_lem ArgType.object_id known (object none) p h = ap ok (appended-nil p _)
  call_write_lem ArgType.object_id known (object (some oid)) p h = ap ok (appended-nil p _)
  call_write_lem ArgType.object_id known _ p h = absurd h
  call_write_lem ArgType.new_id true (new_id v) p h = ap ok (appended-nil p _)
  call_write_lem ArgType.new_id true _ p h = absurd h
  call_write_lem ArgType.new_id false (new_object v) p h =
      rw (push_str_lem v.interface p h.interface) (
        ap ok (
          ap (λ bs. record p { payload = bs })
            (append_assoc _ (to_ne_bytes en v.interface_version) (to_ne_bytes en v.object_id)
              ∙ append_assoc p.payload (encode_text v.interface) _)
          ∙ appended-nil p _))
  call_write_lem ArgType.new_id false _ p h = absurd h
  call_write_lem ArgType.array known (array v) p h =
      rw (lt→leb (2 ^ 32) (length v) h) (ap ok (appended-nil p _))
  call_write_lem ArgType.array known _ p h = absurd h
  call_write_lem ArgType.file_descriptor known (fd v) p h =
      ap (λ bs. ok (record p { payload = bs; fds = p.fds ++ (v ∷ []) }))
        (sym (append-nil p.payload))
  call_write_lem ArgType.file_descriptor known _ p h = absurd h

  pub field_writes_lem :
      (args : List Field) (vs : List Value) (p : Packet)
      → AllFit args vs
      → field_writes en args vs p ≡ ok (appended p (encode_all vs) (all_fds vs))
  unfolding field_writes
  field_writes_lem [] [] p h = ap ok (appended-nil_nil p)
  field_writes_lem (arg ∷ args) (v ∷ vs) p h =
      rw (call_write_lem arg.arg_type arg.known_interface v p h.0) (
        field_writes_lem args vs (appended p (encode v) (fds_of v)) h.1
        ∙ ap ok (appended-appended p (encode v) (encode_all vs) (fds_of v) (all_fds vs)))
  field_writes_lem [] (v ∷ vs) p h = absurd h
  field_writes_lem (arg ∷ args) [] p h = absurd h
