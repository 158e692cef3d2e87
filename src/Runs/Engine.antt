-- ===== src/Runs/Engine.antt =====
-- A transfer of a small file, with a hash that puts the length before the bytes.
use ferrosync.Base.{
  ℕ, suc, ◌+◌, ◌-◌, ◌*◌, ◌≤◌, ◌≡◌, refl, ap, sym, ◌∙◌, List, [], ◌∷◌, ◌++◌, none, some, false,
  length, take, drop, min, replicate, length-take, length-append, arith,
}
use ferrosync.Base.Int.{pos}
use ferrosync.Wire.Stream.{ok, err, checksum_mismatch, Result}
use ferrosync.Wire.Fixed.{write_int, read_int}
use ferrosync.Wire.Stream.{read_exact}
use ferrosync.Delta.Context.{
  md5_type, ProtocolContext, Hashes, checksum2, file_checksum, digest_len,
}
use ferrosync.Delta.Rolling.{checksum1, sum_loop}
use ferrosync.Delta.Sum.{SumStruct}
use ferrosync.Delta.Matcher.{block_byte_length, slice}
use ferrosync.Delta.Matcher.Step.{NoCollision}
use ferrosync.Delta.Signatures.{compute_signatures, sign_loop, compute_s2length, hash_bytes}
use ferrosync.Delta.Token.{recv_token}
use ferrosync.Engine.Sender.{send_file_delta_with_sums}
use ferrosync.Engine.Receiver.{recv_loop, recv_file_delta}
use ferrosync.Engine.Transfer.{recv_file_delta-send_file_delta}
use ferrosync.Delta.Matcher.Slices.{length-slice_basis}
use ferrosync.Delta.Incremental.{Absorbed, nothing, more, Hasher, Hashers}
use ferrosync.Engine.Receiver.ToWriter.{Writer, recv_file_delta_to_writer}
use ferrosync.Engine.Receiver.ToWriter.Alike.{
  TakesAll, Alike, recv_file_delta_to_writer-recv_file_delta,
}
use ferrosync.Engine.Receiver.Accept.{recv_file_delta_total, recv_file_delta_accepted}

abbrev pub small_hash : List ℕ → List ℕ
small_hash xs = take 16 (length xs ∷ xs ++ replicate 16 0)

pub length-small_hash : (xs : List ℕ) → length (small_hash xs) ≡ 16
length-small_hash xs =
    omega
      (arith, length-take 16 (length xs ∷ xs ++ replicate 16 0), length-append xs (replicate 16 0))

abbrev pub zeros : List ℕ → List ℕ
zeros xs = replicate 32 0

abbrev pub small_hashes : Hashes
small_hashes = record {
  md4 = small_hash;
  md5 = small_hash;
  blake3 = zeros;
  xxh3_64 = λ seed xs. length xs;
  xxh3_128 = λ seed xs. length xs;
  md4_len = length-small_hash;
  md5_len = length-small_hash;
  blake3_len = λ xs. refl;
}

abbrev pub small_context : ProtocolContext
small_context = record {
  seed = pos 0;
  checksum_type = md5_type;
  char_offset = 0;
  proper_seed_order = false;
  block_size_override = some (pos 2);
}

abbrev pub old_file : List ℕ
old_file = 1 ∷ 2 ∷ 3 ∷ []

abbrev pub new_file : List ℕ
new_file = 9 ∷ 1 ∷ 2 ∷ 4 ∷ []

abbrev pub old_sums : SumStruct
old_sums = record {
  head = record { count = pos 2; blength = pos 2; s2length = pos 11; remainder = pos 1 };
  sums =
      record {
        sum1 = 262147;
        sum2 = 6 ∷ 1 ∷ 2 ∷ 0 ∷ 0 ∷ 0 ∷ 0 ∷ 0 ∷ 0 ∷ 0 ∷ 0 ∷ [];
        block_len = none;
      }
      ∷ record {
        sum1 = 196611;
        sum2 = 5 ∷ 3 ∷ 0 ∷ 0 ∷ 0 ∷ 0 ∷ 0 ∷ 0 ∷ 0 ∷ 0 ∷ 0 ∷ [];
        block_len = none;
      }
      ∷ [];
}

pub signed : compute_signatures small_hashes small_context old_file ≡ some old_sums
unfolding compute_signatures sign_loop compute_s2length hash_bytes checksum1 sum_loop checksum2
signed = refl

-- The bytes of a block, from its hash.
abbrev hashed : List ℕ → List ℕ
hashed [] = []
hashed (n ∷ xs) = take (n - 4) xs

recovered :
    (xs : List ℕ)
    → length xs ≤ 3
    → hashed (
        take
          (min 11 (length (checksum2 small_hashes small_context xs)))
          (checksum2 small_hashes small_context xs))
      ≡ xs
unfolding checksum2
recovered [] h = refl
recovered (a ∷ []) h = refl
recovered (a ∷ b ∷ []) h = refl
recovered (a ∷ b ∷ c ∷ []) h = refl
recovered (a ∷ b ∷ c ∷ d ∷ xs) h = absurd (omega arith)

old_free :
    NoCollision (checksum2 small_hashes small_context) old_file new_file old_sums.sums 2 11 2 1 0
old_free i p inside weak strong =
    sym
      (recovered _ (omega (arith, length-slice_basis old_file (i * 2) (block_byte_length i 2 2 1))))
    ∙ ap hashed strong
    ∙ recovered (slice new_file p (p + 2))
        (omega (arith, length-take (p + 2 - p) (drop p new_file)))

recv_file_delta-send_file_delta_example :
    (tokens : List ℕ) × (send_file_delta_with_sums small_hashes small_context
        (pos 3)
        new_file
        old_sums
      ≡ some (ok (write_int (pos 3) ++ tokens)))
    × (recv_file_delta small_hashes small_context old_file 2 (tokens ++ 7 ∷ [])
        ≡ some (ok (new_file, 7 ∷ [])))
recv_file_delta-send_file_delta_example =
    recv_file_delta-send_file_delta small_hashes small_context (pos 3) old_file new_file (7 ∷ [])
      old_sums (omega arith, (omega arith, (omega arith, (omega arith, tt)))) signed (omega arith)
      (omega arith) old_free

recv_file_delta_total_example :
    (r : Result (List ℕ × List ℕ)) × (recv_file_delta small_hashes small_context old_file 2
        (0 ∷ 0 ∷ 0 ∷ [])
      ≡ some r)
recv_file_delta_total_example =
    recv_file_delta_total small_hashes small_context old_file 2 (0 ∷ 0 ∷ 0 ∷ [])

-- The end of the file at once, the hash of no bytes, and a byte that is left.
abbrev short_stream : List ℕ
short_stream = 0 ∷ 0 ∷ 0 ∷ 0 ∷ (0 ∷ replicate 15 0) ++ 7 ∷ []

received_short :
    recv_file_delta small_hashes small_context old_file 2 short_stream ≡ some (ok ([], 7 ∷ []))
unfolding recv_file_delta recv_loop recv_token read_int read_exact digest_len file_checksum
received_short = refl

recv_file_delta_accepted_example :
    recv_loop old_file 2 (suc (length short_stream)) [] short_stream
    ≡ some (ok ([], file_checksum small_hashes small_context [] ++ 7 ∷ []))
recv_file_delta_accepted_example =
    recv_file_delta_accepted small_hashes small_context old_file 2 short_stream [] (7 ∷ [])
      received_short

-- A wrong checksum is refused.
refused_short :
    recv_file_delta small_hashes small_context old_file 2 (0 ∷ 0 ∷ 0 ∷ 0 ∷ replicate 16 1)
    ≡ some (err checksum_mismatch)
unfolding recv_file_delta recv_loop recv_token read_int read_exact digest_len file_checksum
refused_short = refl

-- A hasher that keeps the bytes, and a writer that keeps them.
kept-Absorbed : (st xs : List ℕ) → Absorbed [] (λ (a b : List ℕ). a ++ b) st xs → st ≡ xs
kept-Absorbed _ _ nothing = refl
kept-Absorbed _ _ (more {st = st} {xs = xs} a c) = ap (λ bs. bs ++ c) (kept-Absorbed st xs a)

abbrev keeping : {A : Type 0} (digest : List ℕ → A) → Hasher digest
keeping digest = record {
  State = List ℕ;
  start = [];
  absorb = λ a b. a ++ b;
  finish = digest;
  finish_lem = λ st xs a. ap digest (kept-Absorbed st xs a);
}

abbrev small_hashers : Hashers small_hashes
small_hashers = record {
  md4 = keeping small_hash;
  md5 = keeping small_hash;
  blake3 = keeping zeros;
  xxh3 = keeping (λ xs. length xs);
  xxh128 = keeping (λ xs. length xs);
}

abbrev buffer : Writer
buffer = record { State = List ℕ; write_all = λ a b. some (a ++ b) }

abbrev full_buffer : TakesAll buffer
full_buffer = record { holds = λ a. a; takes = λ a b. (a ++ b, refl, refl) }

recv_file_delta_to_writer-recv_file_delta_example :
    Alike small_hashes small_hashers small_context buffer full_buffer
      (7 ∷ [])
      (recv_file_delta_to_writer small_hashes small_hashers buffer small_context old_file 2
        (7 ∷ [])
        short_stream)
      (recv_file_delta small_hashes small_context old_file 2 short_stream)
recv_file_delta_to_writer-recv_file_delta_example =
    recv_file_delta_to_writer-recv_file_delta small_hashes small_hashers small_context buffer
      full_buffer (7 ∷ []) old_file 2 (7 ∷ []) short_stream refl
