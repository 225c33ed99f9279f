-- ===== src/WhaleLand/Protocol/RoundTrip.antt =====
-- The generated structures survive the wire: reading the fields of a packet that was written from
-- a structure gives the structure back.
use one_true_pairing.Common.{
  ℕ, ◌≡◌, refl, sym, Bool, true, false, some, none, List, [], ◌∷◌, ◌++◌, append-nil, arith, length,
  length-drop, le→leb, ap,
}
use one_true_pairing.Common.Bytes.{Endian}
use one_true_pairing.Wlproto.Model.{ArgType}
use one_true_pairing.Wlproto.Output.{Field, tokenize_incoming_arg_type, tokenize_arg_type_read_func}
use one_true_pairing.WhaleLand.Error.{ObjectId, ok, object_id_new}
use one_true_pairing.WhaleLand.Packet.{Packet, new}
use one_true_pairing.WhaleLand.Packet.Reader.{PacketReader, read, finish}
use one_true_pairing.WhaleLand.Packet.Rest.{Rest, Reads, Reads-bind, Reads-pure}
use one_true_pairing.WhaleLand.Packet.Primitives.{
  read_fd-Reads, read_uint-Reads, read_int-Reads, read_fixed-Reads, read_str-Reads,
  read_array-Reads, read_object-Reads, read_new_id_known-Reads, read_new_id_unknown-Reads,
}
use one_true_pairing.WhaleLand.Protocol.{
  Value, uint, int, fixed, string, object, new_id, new_object, array, fd, call_read, field_reads,
  try_from_packet, try_into_packet,
}
use one_true_pairing.WhaleLand.Protocol.Encoding.{
  HasType, AllFit, encode, encode_all, fds_of, all_fds, appended, field_writes_lem,
}

finish_lem : (r : PacketReader) → Rest r [] [] → finish r ≡ ok tt
unfolding finish
finish_lem r h =
    let e = length-drop r.payload_pos r.packet.payload in
    let f = length-drop r.fd_pos r.packet.fds in
    rw (
      le→leb (length r.packet.payload) r.payload_pos (omega (arith, e, ap length h.payload)),
      le→leb (length r.packet.fds) r.fd_pos (omega (arith, f, ap length h.fds)),
    )

module _ (en : Endian) where
  call_read-Reads :
      (t : ArgType) (known : Bool) (v : Value)
      → HasType (tokenize_incoming_arg_type t known) v
      → Reads (call_read en (tokenize_arg_type_read_func t known)) v (encode en v) (fds_of v)
  unfolding call_read tokenize_incoming_arg_type tokenize_arg_type_read_func object_id_new
  call_read-Reads ArgType.uint known (uint v) h =
      Reads-pure _ _ (read_uint-Reads en v h) (λ r. refl)
  call_read-Reads ArgType.uint known _ h = absurd h
  call_read-Reads ArgType.int known (int v) h = Reads-pure _ _ (read_int-Reads en v h) (λ r. refl)
  call_read-Reads ArgType.int known _ h = absurd h
  call_read-Reads ArgType.fixed known (fixed v) h =
      Reads-pure _ _ (read_fixed-Reads en v h) (λ r. refl)
  call_read-Reads ArgType.fixed known _ h = absurd h
  call_read-Reads ArgType.string known (string v) h =
      Reads-pure _ _ (read_str-Reads en v h.short h.no_nul h.utf8) (λ r. refl)
  call_read-Reads ArgType.string known _ h = absurd h
  call_read-Reads ArgType.object_id known (object none) h =
      Reads-pure _ _ (read_object-Reads en 0 (omega arith)) (λ r. refl)
  call_read-Reads ArgType.object_id known (object (some oid)) h =
      Reads-pure _ _ (read_object-Reads en oid h.1) (λ r. ground arith)
  call_read-Reads ArgType.object_id known _ h = absurd h
  call_read-Reads ArgType.new_id true (new_id v) h =
      Reads-pure _ _ (read_new_id_known-Reads en v h) (λ r. refl)
  call_read-Reads ArgType.new_id true _ h = absurd h
  call_read-Reads ArgType.new_id false (new_object v) h =
      Reads-pure _ _
        (read_new_id_unknown-Reads en v h.interface.short h.interface.no_nul h.interface.utf8
          h.version h.object_id)
        (λ r. refl)
  call_read-Reads ArgType.new_id false _ h = absurd h
  call_read-Reads ArgType.array known (array v) h =
      Reads-pure _ _ (read_array-Reads en v h) (λ r. refl)
  call_read-Reads ArgType.array known _ h = absurd h
  call_read-Reads ArgType.file_descriptor known (fd v) h =
      Reads-pure _ _ (read_fd-Reads v) (λ r. refl)
  call_read-Reads ArgType.file_descriptor known _ h = absurd h

  field_reads-Reads :
      (args : List Field) (vs : List Value)
      → AllFit args vs
      → Reads (field_reads en args) vs (encode_all en vs) (all_fds vs)
  unfolding field_reads
  field_reads-Reads [] [] h = record { at = λ r bs fs rest. (r, refl, rest) }
  field_reads-Reads (arg ∷ args) (v ∷ vs) h =
      Reads-bind _ _ (call_read-Reads arg.arg_type arg.known_interface v h.0)
        (Reads-pure _ _ (field_reads-Reads args vs h.1) (λ r. refl))
  field_reads-Reads [] (v ∷ vs) h = absurd h
  field_reads-Reads (arg ∷ args) [] h = absurd h

  -- The packet of a structure with these values.
  abbrev pub wire : ℕ → List Value → ObjectId → Packet
  wire opcode vs object_id = appended (new object_id opcode) (encode_all en vs) (all_fds vs)

  pub try_into_packet_lem :
      (opcode : ℕ) (args : List Field) (vs : List Value) (object_id : ObjectId)
      → AllFit args vs
      → try_into_packet en opcode args vs object_id ≡ ok (wire opcode vs object_id)
  unfolding try_into_packet
  try_into_packet_lem opcode args vs object_id h = field_writes_lem en args vs _ h

  pub try_from_packet-wire :
      (opcode : ℕ) (args : List Field) (vs : List Value) (object_id : ObjectId)
      → AllFit args vs
      → try_from_packet en args (wire opcode vs object_id) ≡ ok vs
  unfolding try_from_packet
  try_from_packet-wire opcode args vs object_id h =
      let (r, e, rest) =
        (field_reads-Reads args vs h).at (read (wire opcode vs object_id)) [] [] all in
      rw e (rw (finish_lem r rest))
    where
      all : Rest (read (wire opcode vs object_id)) (encode_all en vs ++ []) (all_fds vs ++ [])
      all = record {
        payload = sym (append-nil _);
        fds = sym (append-nil _);
        payload_bound = omega arith;
        fd_bound = omega arith;
      }

  -- For every generated structure, values that fit the types of its fields are written to a packet
  -- for the given object with the structure's opcode, and reading that packet gives the same
  -- values, with nothing left over.
  pub try_from_packet-try_into_packet :
      (opcode : ℕ) (args : List Field) (vs : List Value) (object_id : ObjectId)
      → AllFit args vs
      → (p : Packet) × (try_into_packet en opcode args vs object_id ≡ ok p)
        × (p.object_id ≡ object_id)
        × (p.opcode ≡ opcode)
        × (try_from_packet en args p ≡ ok vs)
  try_from_packet-try_into_packet opcode args vs object_id h = (
    wire opcode vs object_id,
    try_into_packet_lem opcode args vs object_id h,
    refl,
    refl,
    try_from_packet-wire opcode args vs object_id h,
  )
