-- ===== src/Codec/IdList/RoundTrip.antt =====
-- The receiver reads the lists of names to their end.
use ferrosync.Base.{
  ℕ, zero, suc, ◌%◌, ◌^◌, ◌<◌, min, ◌==◌, ltb, ◌≡◌, ap, sym, ◌∙◌, refl, Bool, true, false,
  if◌then◌else◌, List, [], ◌∷◌, ◌++◌, append_assoc, length, length-append, length-take, take, All,
  arith, Bool-cases, inl, inr,
}
use ferrosync.Wire.Stream.{
  ◌>>=◌, pure, read_byte, read_exact-append, bind_ok, Reads, Reads-bind, Reads-last, Reads-when,
}
use ferrosync.Wire.Varlong.{IntCodec, read_varint30, write_varint30}
use ferrosync.Codec.Format.{FileListOptions}
use ferrosync.Codec.Entry.{FileEntry}
use ferrosync.Codec.Flags.{is_empty}
use ferrosync.Codec.Fields.Scalars.{Reads-varint30}
use ferrosync.Codec.IdList.{
  NamedId, insert_absent, collect, write_name, write_names, name_of_zero, write_id_names,
  send_id_list, read_name, next_id, read_ids, all_ids, read_id_names, recv_id_list,
}

-- A name as it arrives.
abbrev cut : List ℕ → List ℕ
cut name = take (min (length name) 255) name

Reads-name : (name : List ℕ) → Reads read_name (write_name name) (cut name)
unfolding read_byte
Reads-name name rest =
    let e : min (length name) 255 % 256 ≡ length (cut name) =
      omega (arith, length-take (min (length name) 255) name) in
    rw e (read_exact-append (cut name) rest)

abbrev SmallIds : List NamedId → Type 0
SmallIds names = All (λ (n : NamedId). n.id < 2 ^ 32) names

insert_absent-SmallIds :
    (id : ℕ) (name : List ℕ) (names : List NamedId)
    → id < 2 ^ 32
    → SmallIds names
    → SmallIds (insert_absent id name names)
unfolding insert_absent
insert_absent-SmallIds id name [] h s = (h, tt)
insert_absent-SmallIds id name (n ∷ names) h s = elim (Bool-cases (ltb id n.id)) [
  | inl e ↦ rw e (h, s)
  | inr e ↦ elim (Bool-cases (id == n.id)) [
    | inl k ↦ rw (e, k) s
    | inr k ↦ rw (e, k) (s.0, insert_absent-SmallIds id name names h s.1)
  ]
]

collect-SmallIds :
    (id_of : FileEntry → ℕ) (name_of : FileEntry → List ℕ) (entries : List FileEntry)
    (names : List NamedId)
    → All (λ (e : FileEntry). id_of e < 2 ^ 32) entries
    → SmallIds names
    → SmallIds (collect id_of name_of entries names)
unfolding collect
collect-SmallIds id_of name_of [] names h s = s
collect-SmallIds id_of name_of (e ∷ entries) names h s =
    collect-SmallIds id_of name_of entries _ h.1 (kept (is_empty (name_of e)))
  where
    kept : (b : Bool) → SmallIds (if b then names else insert_absent (id_of e) (name_of e) names)
    kept true = s
    kept false = insert_absent-SmallIds (id_of e) (name_of e) names h.0 s

module _ (codec : IntCodec) where
  abbrev named : NamedId → List ℕ
  named n = write_varint30 n.id codec ++ write_name n.name

  one_name :
      (n : NamedId) (fuel : ℕ) (tail : List ℕ)
      → (n.id == 0) ≡ false
      → n.id < 2 ^ 32
      → read_ids (suc fuel) codec (named n ++ tail) ≡ read_ids fuel codec tail
  unfolding read_ids
  one_name n fuel tail z h =
      ap (read_ids (suc fuel) codec)
        (append_assoc (write_varint30 n.id codec) (write_name n.name) tail)
      ∙ bind_ok (read_varint30 codec) (next_id (read_ids fuel codec))
          (write_varint30 n.id codec ++ (write_name n.name ++ tail))
          (Reads-varint30 codec n.id h (write_name n.name ++ tail))
      ∙ rw z (
          bind_ok read_name (λ name. read_ids fuel codec) (write_name n.name ++ tail)
            (Reads-name n.name tail))

  shorter :
      (n : NamedId) (tail : List ℕ) (fuel : ℕ)
      → length (named n ++ tail) < suc fuel
      → length tail < fuel
  shorter n tail fuel h = omega (
    arith,
    length-append (named n) tail,
    length-append (write_varint30 n.id codec) (write_name n.name),
  )

  -- The loop reads the names and the 0 behind them.
  Reads-ids :
      (names : List NamedId) (fuel : ℕ)
      → length (write_names codec names) < fuel
      → SmallIds names
      → Reads (read_ids fuel codec) (write_names codec names ++ write_varint30 0 codec) 0
  unfolding read_ids write_names
  Reads-ids names zero h s rest = absurd (omega arith)
  Reads-ids [] (suc fuel) h s rest =
      bind_ok (read_varint30 codec) (next_id (read_ids fuel codec)) (write_varint30 0 codec ++ rest)
        (Reads-varint30 codec 0 (omega arith) rest)
  Reads-ids (n ∷ names) (suc fuel) h s rest = elim (Bool-cases (n.id == 0)) [
    | inl z ↦ rw z (Reads-ids names (suc fuel) (rw z at h) s.1 rest)
    | inr z ↦
        let tail = write_names codec names in
        let end = write_varint30 0 codec in
        rw z (
          ap (λ l. read_ids (suc fuel) codec (l ++ rest)) (append_assoc (named n) tail end)
          ∙ ap (read_ids (suc fuel) codec) (append_assoc (named n) (tail ++ end) rest)
          ∙ one_name n fuel ((tail ++ end) ++ rest) z s.0
          ∙ Reads-ids names fuel (shorter n tail fuel (rw z at h)) s.1 rest)
  ]

  Reads-all_ids :
      (names : List NamedId)
      → SmallIds names
      → Reads (all_ids codec) (write_names codec names ++ write_varint30 0 codec) 0
  Reads-all_ids names s rest =
      let tail = write_names codec names in
      let end = write_varint30 0 codec in
      Reads-ids names (suc (length ((tail ++ end) ++ rest)))
        (omega (arith, length-append (tail ++ end) rest, length-append tail end)) s rest

  Reads-id_names :
      (id0_names : Bool) (names : List NamedId)
      → SmallIds names
      → Reads (read_id_names codec id0_names) (write_id_names codec id0_names names) 0
  Reads-id_names id0_names names s rest =
      ap (λ l. read_id_names codec id0_names (l ++ rest))
        (append_assoc_sym (write_names codec names) (write_varint30 0 codec) _)
      ∙ Reads-bind (all_ids codec)
          (λ end. if id0_names then (read_name >>= λ name. pure end) else pure end)
          (write_names codec names ++ write_varint30 0 codec)
          (if id0_names then write_name (name_of_zero names) else []) 0 0 (Reads-all_ids names s)
          (Reads-when id0_names 0 (read_name >>= λ name. pure 0) (write_name (name_of_zero names)) 0
            (λ c. refl)
            (λ c.
              Reads-last read_name (λ name. 0) (write_name (name_of_zero names)) _
                (Reads-name (name_of_zero names))))
          rest
    where
      append_assoc_sym : (a b c : List ℕ) → a ++ (b ++ c) ≡ (a ++ b) ++ c
      append_assoc_sym a b c = sym (append_assoc a b c)

-- The receiver reads exactly the lists of names that the sender wrote, whatever the names, for
-- owners below 2^32.
pub recv_id_list-send_id_list :
    (entries : List FileEntry) (opts : FileListOptions)
    → All (λ (e : FileEntry). e.uid < 2 ^ 32) entries
    → All (λ (e : FileEntry). e.gid < 2 ^ 32) entries
    → Reads (recv_id_list opts) (send_id_list entries opts) tt
unfolding recv_id_list send_id_list
recv_id_list-send_id_list entries opts hu hg =
    let users = collect (λ (e : FileEntry). e.uid) (λ e. e.user_name) entries [] in
    let groups = collect (λ (e : FileEntry). e.gid) (λ e. e.group_name) entries [] in
    let codec = opts.wire.int_codec in
    let read = read_id_names codec opts.xmit_id0_names in
    Reads-bind (if opts.preserve_uid then read else pure 0)
      (λ u. (if opts.preserve_gid then read else pure 0) >>= λ g. pure tt)
      (if opts.preserve_uid then write_id_names codec opts.xmit_id0_names users else [])
      (if opts.preserve_gid then write_id_names codec opts.xmit_id0_names groups else []) 0 tt
      (Reads-when opts.preserve_uid 0 read _ 0 (λ c. refl)
        (λ c.
          Reads-id_names codec opts.xmit_id0_names users
            (collect-SmallIds (λ e. e.uid) (λ e. e.user_name) entries [] hu tt)))
      (Reads-last (if opts.preserve_gid then read else pure 0) (λ g. tt)
        (if opts.preserve_gid then write_id_names codec opts.xmit_id0_names groups else []) 0
        (Reads-when opts.preserve_gid 0 read _ 0 (λ c. refl)
          (λ c.
            Reads-id_names codec opts.xmit_id0_names groups
              (collect-SmallIds (λ e. e.gid) (λ e. e.group_name) entries [] hg tt))))
