-- ===== src/Codec/IdList.antt =====
-- The lists of user and group names behind a batch, `send_id_list` and `recv_id_list` of
-- crates/ferrosync-codec/src/exchange.rs. A `BTreeMap` is a list in the order of its keys. The
-- receiver's loop runs on fuel, one round for each byte and one more.
pub mod RoundTrip
use ferrosync.Base.{
  ℕ, zero, suc, ◌+◌, ◌%◌, ◌^◌, ◌<◌, ◌≤◌, ◌≢◌, min, ◌==◌, ==_ne, ltb, ◌≡◌, ap, ◌∙◌, refl, Bool, true,
  false, if◌then◌else◌, List, [], ◌∷◌, ◌++◌, append_assoc, length, length-append, length-take, take,
  All, arith, Bool-cases, inl, inr,
}
use ferrosync.Wire.Stream.{
  Reader, ok, ◌>>=◌, ◌>>◌, pure, fail, io, read_byte, read_exact, read_exact-append, bind_ok, Reads,
  Reads-bind, Reads-last,
}
use ferrosync.Wire.Varlong.{IntCodec, read_varint30, write_varint30}
use ferrosync.Codec.Format.{FileListOptions}
use ferrosync.Codec.Entry.{FileEntry}
use ferrosync.Codec.Flags.{is_empty}

pub record NamedId : Type 0 where
  pub id : ℕ
  pub name : List ℕ

-- `if !names.contains_key(&id) { names.insert(id, name) }`
unfoldable pub insert_absent : ℕ → List ℕ → List NamedId → List NamedId
insert_absent id name [] = record { id = id; name = name } ∷ []
insert_absent id name (n ∷ names) =
    let rest = insert_absent id name names in
    if ltb id n.id
    then record { id = id; name = name } ∷ n ∷ names
    else (if id == n.id then n ∷ names else n ∷ rest)

-- The names of the entries, with `names` so far. `id_of` and `name_of` are the owner's or the group's.
unfoldable pub collect :
    (FileEntry → ℕ) → (FileEntry → List ℕ) → List FileEntry → List NamedId → List NamedId
collect id_of name_of [] names = names
collect id_of name_of (e ∷ entries) names =
    collect id_of name_of entries
      (if is_empty (name_of e) then names else insert_absent (id_of e) (name_of e) names)

-- A name is cut at 255 bytes.
abbrev pub write_name : List ℕ → List ℕ
write_name name = min (length name) 255 % 256 ∷ take (min (length name) 255) name

unfoldable pub write_names : IntCodec → List NamedId → List ℕ
write_names codec [] = []
write_names codec (n ∷ names) =
    (if n.id == 0 then [] else write_varint30 n.id codec ++ write_name n.name)
    ++ write_names codec names

abbrev pub root_name : List ℕ
root_name = b'r' ∷ b'o' ∷ b'o' ∷ b't' ∷ []

unfoldable pub name_of_zero : List NamedId → List ℕ
name_of_zero [] = root_name
name_of_zero (n ∷ names) = let rest = name_of_zero names in if n.id == 0 then n.name else rest

abbrev pub write_id_names : IntCodec → Bool → List NamedId → List ℕ
write_id_names codec id0_names names =
    write_names codec names
    ++ (write_varint30 0 codec ++ (if id0_names then write_name (name_of_zero names) else []))

unfoldable pub send_id_list : List FileEntry → FileListOptions → List ℕ
send_id_list entries opts =
    (if opts.preserve_uid
      then write_id_names opts.wire.int_codec opts.xmit_id0_names
          (collect (λ e. e.uid) (λ e. e.user_name) entries [])
      else [])
    ++ (if opts.preserve_gid
        then write_id_names opts.wire.int_codec opts.xmit_id0_names
            (collect (λ e. e.gid) (λ e. e.group_name) entries [])
        else [])

abbrev pub read_name : Reader (List ℕ)
read_name = do name_len ← read_byte; read_exact name_len

abbrev pub next_id : Reader ℕ → ℕ → Reader ℕ
next_id again id = if id == 0 then pure id else (do name ← read_name; again)

unfoldable pub read_ids : ℕ → IntCodec → Reader ℕ
read_ids zero codec = fail io
read_ids (suc fuel) codec = do id ← read_varint30 codec; next_id (read_ids fuel codec) id

abbrev pub all_ids : IntCodec → Reader ℕ
all_ids codec s = read_ids (suc (length s)) codec s

abbrev pub read_id_names : IntCodec → Bool → Reader ℕ
read_id_names codec id0_names = do
  end ← all_ids codec
  if id0_names then (do name ← read_name; pure end) else pure end

-- What is read is thrown away.
unfoldable pub recv_id_list : FileListOptions → Reader (Unit {0})
recv_id_list opts = do
  users ←
      (if opts.preserve_uid then read_id_names opts.wire.int_codec opts.xmit_id0_names else pure 0)
  groups ←
      (if opts.preserve_gid then read_id_names opts.wire.int_codec opts.xmit_id0_names else pure 0)
  pure tt
