-- ===== src/Delta/Incremental.antt =====
-- `IncrementalChecksum` of crates/ferrosync-delta/src/checksum.rs: the checksum of a file that comes in
-- pieces. The hashers of the libraries are the record Hashers.
use ferrosync.Base.{ℕ, ◌≡◌, refl, ap, ◌∙◌, List, [], ◌++◌, replicate}
use ferrosync.Base.Bytes.{le_bytes}
use ferrosync.Delta.Context.{
  ChecksumType, none_type, md4_type, md5_type, blake3_type, xxh3_type, xxh128_type, digest_len,
  Hashes, ProtocolContext, file_checksum, file_checksum_by,
}

-- The states that are reached from `start`, with the bytes that they were given.
pub data Absorbed {State : Type 0} (start : State) (update : State → List ℕ → State)
    : State → List ℕ → Type 0 where
  nothing : Absorbed start update start []
  more :
      {st : State} {xs : List ℕ}
      → Absorbed start update st xs
      → (c : List ℕ) → Absorbed start update (update st c) (xs ++ c)

-- A hasher of a library. As it documents, its digest is that of all the bytes that it was given, in
-- whatever pieces they came.
pub record Hasher {A : Type 0} (digest : List ℕ → A) : Type 1 where
  pub State : Type 0
  pub start : State
  pub absorb : State → List ℕ → State
  pub finish : State → A
  pub finish_lem : (st : State) (xs : List ℕ) → Absorbed start absorb st xs → finish st ≡ digest xs

pub record Hashers (hashes : Hashes) : Type 1 where
  pub md4 : Hasher hashes.md4
  pub md5 : Hasher hashes.md5
  pub blake3 : Hasher hashes.blake3
  pub xxh3 : Hasher (hashes.xxh3_64 0)
  pub xxh128 : Hasher (hashes.xxh3_128 0)

module _ (hashes : Hashes) (hashers : Hashers hashes) where
  pub data IncrementalChecksum : Type 0 where
    md4_state : hashers.md4.State → IncrementalChecksum
    md5_state : hashers.md5.State → IncrementalChecksum
    blake3_state : hashers.blake3.State → IncrementalChecksum
    xxh3_state : hashers.xxh3.State → IncrementalChecksum
    xxh128_state : hashers.xxh128.State → IncrementalChecksum
    none_state : ℕ → IncrementalChecksum

  unfoldable pub new_checksum : ChecksumType → IncrementalChecksum
  new_checksum md4_type = md4_state hashers.md4.start
  new_checksum md5_type = md5_state hashers.md5.start
  new_checksum blake3_type = blake3_state hashers.blake3.start
  new_checksum xxh3_type = xxh3_state hashers.xxh3.start
  new_checksum xxh128_type = xxh128_state hashers.xxh128.start
  new_checksum none_type = none_state (digest_len none_type)

  unfoldable pub update : IncrementalChecksum → List ℕ → IncrementalChecksum
  update (md4_state h) data_bytes = md4_state (hashers.md4.absorb h data_bytes)
  update (md5_state h) data_bytes = md5_state (hashers.md5.absorb h data_bytes)
  update (blake3_state h) data_bytes = blake3_state (hashers.blake3.absorb h data_bytes)
  update (xxh3_state h) data_bytes = xxh3_state (hashers.xxh3.absorb h data_bytes)
  update (xxh128_state h) data_bytes = xxh128_state (hashers.xxh128.absorb h data_bytes)
  update (none_state len) data_bytes = none_state len

  unfoldable pub finalize : IncrementalChecksum → List ℕ
  finalize (md4_state h) = hashers.md4.finish h
  finalize (md5_state h) = hashers.md5.finish h
  finalize (blake3_state h) = hashers.blake3.finish h
  finalize (xxh3_state h) = le_bytes 8 (hashers.xxh3.finish h)
  finalize (xxh128_state h) = le_bytes 16 (hashers.xxh128.finish h)
  finalize (none_state len) = replicate len 0

  -- A variant stays, and its hasher gets the bytes.
  absorbed_by :
      {State : Type 0} (start : State) (absorb : State → List ℕ → State)
      (wrap : State → IncrementalChecksum) (h : IncrementalChecksum) (xs : List ℕ)
      → ((st : State) (c : List ℕ) → update (wrap st) c ≡ wrap (absorb st c))
      → Absorbed (wrap start) update h xs
      → (st : State) × (h ≡ wrap st) × Absorbed start absorb st xs
  absorbed_by start absorb wrap _ _ step nothing = (start, refl, nothing)
  absorbed_by start absorb wrap _ _ step (more {st = h} {xs = xs} a c) =
      let (st, same, b) = absorbed_by start absorb wrap h xs step a in
      (absorb st c, ap (λ h'. update h' c) same ∙ step st c, more b c)

  finalize_none :
      (len : ℕ) (h : IncrementalChecksum) (xs : List ℕ)
      → Absorbed (none_state len) update h xs
      → h ≡ none_state len
  unfolding update
  finalize_none len _ _ nothing = refl
  finalize_none len _ _ (more {st = h} {xs = xs} a c) =
      ap (λ h'. update h' c) (finalize_none len h xs a)

  finalize_by :
      (ctx : ProtocolContext) (t : ChecksumType) (h : IncrementalChecksum) (xs : List ℕ)
      → Absorbed (new_checksum t) update h xs
      → finalize h ≡ file_checksum_by hashes ctx t xs
  unfolding finalize new_checksum update
  finalize_by ctx md4_type h xs a =
      let (st, same, b) =
        absorbed_by hashers.md4.start hashers.md4.absorb md4_state h xs (λ st c. refl) a in
      ap finalize same ∙ hashers.md4.finish_lem st xs b
  finalize_by ctx md5_type h xs a =
      let (st, same, b) =
        absorbed_by hashers.md5.start hashers.md5.absorb md5_state h xs (λ st c. refl) a in
      ap finalize same ∙ hashers.md5.finish_lem st xs b
  finalize_by ctx blake3_type h xs a =
      let (st, same, b) =
        absorbed_by hashers.blake3.start hashers.blake3.absorb blake3_state h xs (λ st c. refl) a in
      ap finalize same ∙ hashers.blake3.finish_lem st xs b
  finalize_by ctx xxh3_type h xs a =
      let (st, same, b) =
        absorbed_by hashers.xxh3.start hashers.xxh3.absorb xxh3_state h xs (λ st c. refl) a in
      ap finalize same ∙ ap (λ n. le_bytes 8 n) (hashers.xxh3.finish_lem st xs b)
  finalize_by ctx xxh128_type h xs a =
      let (st, same, b) =
        absorbed_by hashers.xxh128.start hashers.xxh128.absorb xxh128_state h xs (λ st c. refl) a in
      ap finalize same ∙ ap (λ n. le_bytes 16 n) (hashers.xxh128.finish_lem st xs b)
  finalize_by ctx none_type h xs a = ap finalize (finalize_none (digest_len none_type) h xs a)

  -- The checksum that was updated with the pieces of a file is the checksum of the file, for every
  -- checksum type.
  pub finalize-file_checksum :
      (ctx : ProtocolContext) (h : IncrementalChecksum) (xs : List ℕ)
      → Absorbed (new_checksum ctx.checksum_type) update h xs
      → finalize h ≡ file_checksum hashes ctx xs
  unfolding file_checksum
  finalize-file_checksum ctx h xs a = finalize_by ctx ctx.checksum_type h xs a
