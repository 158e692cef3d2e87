-- ===== src/Delta/Sum/RoundTrip.antt =====
-- Signatures survive the wire.
use ferrosync.Base.{
  ℕ, suc, ◌<◌, ◌^◌, ◌≡◌, refl, ap, ap₂, sym, ◌∙◌, List, [], ◌∷◌, ◌++◌, none, true, false, length,
  All, append_assoc,
}
use ferrosync.Base.Int.{ℤ, pos, IsI32}
use ferrosync.Base.Bytes.{le_bytes, from_le_bytes-le_bytes}
use ferrosync.Wire.Stream.{
  ok, err, Reader, wire_value_out_of_range, ◌>>=◌, read_exact, read_exact-append, bind_ok,
}
use ferrosync.Wire.Fixed.{read_int, write_int, read_int-write_int}
use ferrosync.Delta.Sum.{
  SumHead, SumEntry, SumStruct, write_sum_head, read_sum_head, write_entry, write_entries,
  write_sums, read_entry, read_entries, read_body, read_sums, read_sums_cdc, as_usize, in_range,
  max_block_count,
}

abbrev pub IsHead : SumHead → Type 0
IsHead h = IsI32 h.count × IsI32 h.blength × IsI32 h.s2length × IsI32 h.remainder

-- Four bytes of the rolling checksum and `s2length` bytes of the strong one, with no length.
abbrev pub IsEntry : ℕ → SumEntry → Type 0
IsEntry s2length e = (e.sum1 < 2 ^ 32) × (length e.sum2 ≡ s2length) × (e.block_len ≡ none)

next_int :
    {B : Type 0} (g : ℤ → Reader B) (a : ℤ) (s : List ℕ)
    → IsI32 a
    → (read_int >>= g) (write_int a ++ s) ≡ g a s
next_int g a s h = bind_ok read_int g _ (read_int-write_int a s h)

next_bytes :
    {B : Type 0} (g : List ℕ → Reader B) (n : ℕ) (bs s : List ℕ)
    → length bs ≡ n
    → (read_exact n >>= g) (bs ++ s) ≡ g bs s
next_bytes g n bs s e =
    ap (λ k. (read_exact k >>= g) (bs ++ s)) (sym e)
    ∙ bind_ok (read_exact (length bs)) g _ (read_exact-append bs s)

write_sum_head-append :
    (h : SumHead) (rest : List ℕ)
    → write_sum_head h ++ rest
      ≡ write_int h.count
        ++ (write_int h.blength ++ (write_int h.s2length ++ (write_int h.remainder ++ rest)))
unfolding write_sum_head
write_sum_head-append h rest =
    append_assoc (write_int h.count) _ rest
    ∙ ap (λ s. write_int h.count ++ s)
        (append_assoc (write_int h.blength) _ rest
          ∙ ap (λ s. write_int h.blength ++ s) (append_assoc (write_int h.s2length) _ rest))

-- The header of a signature set is read back, whatever follows it.
pub read_sum_head-write_sum_head :
    (h : SumHead) (rest : List ℕ)
    → IsHead h
    → read_sum_head (write_sum_head h ++ rest) ≡ ok (h, rest)
unfolding read_sum_head
read_sum_head-write_sum_head h rest (c, b, s, r) =
    ap read_sum_head (write_sum_head-append h rest)
    ∙ next_int _ h.count _ c
    ∙ next_int _ h.blength _ b
    ∙ next_int _ h.s2length _ s
    ∙ next_int _ h.remainder rest r

read_entry-write_entry :
    (n : ℕ) (e : SumEntry) (rest : List ℕ)
    → IsEntry n e
    → read_entry n (write_entry e ++ rest) ≡ ok (e, rest)
unfolding read_entry write_entry
read_entry-write_entry n e rest (small, len, none_len) =
    ap (read_entry n) (append_assoc (le_bytes 4 e.sum1) e.sum2 rest)
    ∙ next_bytes _ 4 (le_bytes 4 e.sum1) _ refl
    ∙ next_bytes _ n e.sum2 rest len
    ∙ ap₂ (λ w l. ok (record { sum1 = w; sum2 = e.sum2; block_len = l }, rest))
        (from_le_bytes-le_bytes 4 e.sum1 small) (sym none_len)

read_entries-write_entries :
    (n : ℕ) (es : List SumEntry) (rest : List ℕ)
    → All (IsEntry n) es
    → read_entries (read_entry n) (length es) (write_entries es ++ rest) ≡ ok (es, rest)
unfolding read_entries write_entries
read_entries-write_entries n [] rest h = refl
read_entries-write_entries n (e ∷ es) rest (first, others) =
    ap (read_entries (read_entry n) (suc (length es)))
      (append_assoc (write_entry e) (write_entries es) rest)
    ∙ bind_ok (read_entry n) _ _ (read_entry-write_entry n e _ first)
    ∙ bind_ok (read_entries (read_entry n) (length es)) _ _
        (read_entries-write_entries n es rest others)

-- A signature set whose head counts its entries, at most 2^24 of them with strong checksums of at
-- most 64 bytes, is read back from what `write_sums` wrote, and the bytes after it are left.
pub read_sums-write_sums :
    (s : SumStruct) (rest : List ℕ)
    → IsHead s.head
    → in_range s.head.count max_block_count ≡ true
    → in_range s.head.s2length 64 ≡ true
    → length s.sums ≡ as_usize s.head.count
    → All (IsEntry (as_usize s.head.s2length)) s.sums
    → read_sums (write_sums s ++ rest) ≡ ok (s, rest)
unfolding read_sums write_sums read_body
read_sums-write_sums s rest head count s2length counted entries =
    ap read_sums (append_assoc (write_sum_head s.head) (write_entries s.sums) rest)
    ∙ bind_ok read_sum_head _ _ (read_sum_head-write_sum_head s.head _ head)
    ∙ (rw (count, s2length, sym counted)
        (bind_ok (read_entries (read_entry (as_usize s.head.s2length)) (length s.sums)) _ _
          (read_entries-write_entries _ s.sums rest entries)))

-- A count below 0 or above 2^24 is refused before any entry is read, in both formats.
pub read_sums_refuses :
    (h : SumHead) (rest : List ℕ)
    → IsHead h
    → in_range h.count max_block_count ≡ false
    → (read_sums (write_sum_head h ++ rest)
        ≡ err (wire_value_out_of_range h.count (pos max_block_count)))
      × (read_sums_cdc (write_sum_head h ++ rest)
          ≡ err (wire_value_out_of_range h.count (pos max_block_count)))
unfolding read_sums read_sums_cdc read_body
read_sums_refuses h rest head out = (
  bind_ok read_sum_head _ _ (read_sum_head-write_sum_head h rest head) ∙ rw (out),
  bind_ok read_sum_head _ _ (read_sum_head-write_sum_head h rest head) ∙ rw (out),
)
