-- ===== src/Runs/Handshake.antt =====
-- The theorems on the handshake and the item flags at concrete values.
use ferrosync.Base.{
  ℕ, ◌≡◌, refl, ◌⊎◌, true, false, none, List, [], ◌∷◌, ◌++◌, All, if◌then◌else◌, arith,
}
use ferrosync.Base.Int.{pos}
use ferrosync.Wire.Stream.{Reads, ok, err, handshake}
use ferrosync.Codec.Format.{has_bit, wire_format}
use ferrosync.Delta.Context.{ChecksumType, md5_type, blake3_type}
use ferrosync.Wire.Ndx.{initial}
use ferrosync.Engine.Goodbye.{
  write_goodbye_done, sender_goodbye, receiver_goodbye, server_sender_goodbye,
  server_receiver_goodbye, goodbyes_agree,
}
use ferrosync.Handshake.Text.{KeepsText}
use ferrosync.Handshake.Negotiate.{
  split_from, lists, candidate, first_common, IsFirst, first_common-IsFirst,
}
use ferrosync.Handshake.Peers.{
  zlibx, checksum_from_name, compress_from_name, checksum_list, compress_list, NegotiatedProtocol,
  build_compat_flags_from_client_info, client_handshake, server_handshake,
}
use ferrosync.Handshake.Peers.Agree.{ascii_text, handshakes_agree}
use ferrosync.Engine.Iflags.{read_iflags, write_iflags_echo, read_iflags-write_iflags_echo}

abbrev same_text : List ℕ → List ℕ
same_text bs = bs

same_text-KeepsText : KeepsText same_text
same_text-KeepsText bs h = refl

-- `.iLsfxCIvu`
abbrev info : List ℕ
info = b'.' ∷ b'i' ∷ b'L' ∷ b's' ∷ b'f' ∷ b'x' ∷ b'C' ∷ b'I' ∷ b'v' ∷ b'u' ∷ []

checksum_chosen :
    first_common checksum_from_name (split_from checksum_list []) (split_from checksum_list [])
    ≡ ok blake3_type
unfolding first_common checksum_from_name split_from lists
checksum_chosen = refl

compress_chosen :
    first_common compress_from_name (split_from compress_list []) (split_from compress_list [])
    ≡ ok zlibx
unfolding first_common compress_from_name split_from lists
compress_chosen = refl

handshakes_agree_example :
    (protocol : NegotiatedProtocol) × (client_bytes : List ℕ) × (server_bytes : List ℕ) × Reads
      (client_handshake same_text true true none none)
      server_bytes
      (protocol, client_bytes)
    × Reads
        (server_handshake same_text info false true (pos 77))
        client_bytes
        (protocol, server_bytes)
    × (protocol.version ≡ 32)
    × (protocol.compat_flags ≡ build_compat_flags_from_client_info info)
    × (protocol.seed ≡ pos 77)
    × (protocol.checksum
        ≡ (if has_bit 7 (build_compat_flags_from_client_info info) then blake3_type else md5_type))
handshakes_agree_example =
    handshakes_agree same_text same_text-KeepsText info true true checksum_list compress_list
      (pos 77) blake3_type zlibx (omega arith, omega arith)
      (ascii_text checksum_list refl, omega arith) (ascii_text compress_list refl, omega arith)
      checksum_chosen (λ c. compress_chosen) none none refl refl

abbrev only_md5 : List (List ℕ)
only_md5 = (b'm' ∷ b'd' ∷ b'5' ∷ []) ∷ []

first_common-IsFirst_example :
    ((algo : ChecksumType) × (first_common checksum_from_name only_md5 only_md5 ≡ ok algo)
      × IsFirst checksum_from_name only_md5 only_md5 algo)
    ⊎ ((first_common checksum_from_name only_md5 only_md5 ≡ err handshake)
        × All (λ n. candidate checksum_from_name only_md5 n ≡ none) only_md5)
first_common-IsFirst_example = first_common-IsFirst checksum_from_name only_md5 only_md5

-- Both trailers announced.
read_iflags-write_iflags_echo_example :
    Reads
      (read_iflags (wire_format 31 0))
      (write_iflags_echo (wire_format 31 0) 0x1800)
      (if (wire_format 31 0).has_iflags then 0x1800 else 0)
read_iflags-write_iflags_echo_example =
    read_iflags-write_iflags_echo (wire_format 31 0) 0x1800 (omega arith)

goodbyes_agree_example :
    ((s : List ℕ)
      → (server_sender_goodbye
          (wire_format 31 128)
          ((receiver_goodbye (wire_format 31 128) s).0 ++ (7 ∷ []))).1
        ≡ 7 ∷ [])
    × ((s : List ℕ)
        → (receiver_goodbye
            (wire_format 31 128)
            ((server_sender_goodbye (wire_format 31 128) s).0 ++ (7 ∷ []))).1
          ≡ 7 ∷ [])
    × ((sender_goodbye
          (wire_format 31 128)
          (server_receiver_goodbye (wire_format 31 128) ++ (7 ∷ []))).1
        ≡ 7 ∷ [])
    × ((s : List ℕ)
        → (sender_goodbye (wire_format 31 128) s).0
          ≡ (write_goodbye_done (wire_format 31 128).int_codec initial).0)
unfolding wire_format
goodbyes_agree_example = goodbyes_agree (wire_format 31 128) (7 ∷ [])
