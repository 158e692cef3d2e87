-- ===== src/Handshake/Peers/Agree.antt =====
-- A client and a server of this program that read each other's bytes.
use ferrosync.Base.{
  ℕ, ◌<◌, ◌≤◌, ltb, le→ltb, ◌≡◌, ◌∙◌, refl, Bool, true, false, not, ◌&&◌, if◌then◌else◌, Option,
  List, [], ◌∷◌, ◌++◌, length, All, arith,
}
use ferrosync.Base.Int.{ℤ, pos, IsI32}
use ferrosync.Wire.Stream.{Reader, ok, ◌>>=◌, pure, Reads, Reads-bind, Reads-last, bind_ok}
use ferrosync.Wire.Fixed.{read_int, write_int, read_int-write_int}
use ferrosync.Wire.Varint.{write_varint}
use ferrosync.Wire.Varint.RoundTrip.{read_varint-write_varint}
use ferrosync.Codec.Format.{has_bit}
use ferrosync.Delta.Context.{ChecksumType, md5_type, default_for_version}
use ferrosync.Handshake.Text.{
  read_vstring, write_vstring, vstring_len, KeepsText, read_vstring-write_vstring,
}
use ferrosync.Handshake.Peers.{
  build_capability_string, CompressType, no_compress, checksum_from_name, compress_from_name,
  checksum_list, compress_list, default_compress, NegotiatedProtocol, flag_of_char, fold_flags,
  build_compat_flags_from_client_info, max_protocol_version, check_version, read_version,
  read_flags, negotiate_as, finish_handshake, unwrap_or, client_choice, server_choice, both_choices,
  choices_if, client_handshake, server_handshake,
}

flag_of_char-lt : (ch flags : ℕ) → flags < 512 → flag_of_char ch flags < 512
flag_of_char-lt ch flags h = ground arith

fold_flags-lt : (info : List ℕ) (flags : ℕ) → flags < 512 → fold_flags info flags < 512
unfolding fold_flags
fold_flags-lt [] flags h = h
fold_flags-lt (ch ∷ info) flags h = fold_flags-lt info _ (flag_of_char-lt ch flags h)

abbrev ascii : List ℕ → Bool
ascii [] = true
ascii (b ∷ bs) = ltb b 128 && ascii bs

pub ascii_text : (bs : List ℕ) → ascii bs ≡ true → All (λ b. b < 128) bs
ascii_text [] h = tt
ascii_text (b ∷ bs) h = (ground arith, ascii_text bs (ground arith))

abbrev vstring : List ℕ → List ℕ
vstring t = vstring_len (length t) ++ t

-- A text that can be sent.
abbrev IsText : List ℕ → Type 0
IsText t = All (λ b. b < 128) t × (length t ≤ 32767)

write_vstring_fits : (t : List ℕ) → length t ≤ 32767 → write_vstring t ≡ ok (vstring t)
unfolding write_vstring
write_vstring_fits t h = rw (le→ltb 32767 (length t) h)

-- The two sides put the same list first.
negotiate_as-not :
    {T : Type 0} (b : Bool) (ours theirs : List ℕ) (parse : List ℕ → Option T)
    → negotiate_as (not b) theirs ours parse ≡ negotiate_as b ours theirs parse
negotiate_as-not true ours theirs parse = refl
negotiate_as-not false ours theirs parse = refl

module _ (lossy : List ℕ → List ℕ) (keeps : KeepsText lossy) where
  module _ {T : Type 0} (b : Bool) (ours theirs : List ℕ) (parse : List ℕ → Option T) (algo : T)
      (our_text : IsText ours) (their_text : IsText theirs)
      (chosen : negotiate_as b ours theirs parse ≡ ok algo) where
    Reads-client : Reads (client_choice lossy b ours parse) (vstring theirs) (algo, vstring ours)
    unfolding client_choice
    Reads-client rest = rw (write_vstring_fits ours our_text.1) (
        bind_ok (read_vstring lossy) _ (vstring theirs ++ rest)
          (read_vstring-write_vstring lossy theirs keeps their_text.0 their_text.1 rest)
        ∙ rw chosen)

    Reads-server : Reads (server_choice lossy b ours parse) (vstring theirs) (algo, vstring ours)
    unfolding server_choice
    Reads-server rest =
        bind_ok (read_vstring lossy) _ (vstring theirs ++ rest)
          (read_vstring-write_vstring lossy theirs keeps their_text.0 their_text.1 rest)
        ∙ rw (write_vstring_fits ours our_text.1, chosen)

-- The strings of one side.
abbrev strings : Bool → Bool → List ℕ → List ℕ → List ℕ
strings negotiated use_compress checksums compresses =
    if negotiated
    then vstring checksums ++ (if use_compress then vstring compresses else [])
    else []

module _ (b : Bool) (version : ℕ) (ours1 theirs1 ours2 theirs2 : List ℕ) (ck : ChecksumType)
    (cp : CompressType) (lossy : List ℕ → List ℕ)
    (choose1 : Bool → List ℕ → (List ℕ → Option ChecksumType) → Reader (ChecksumType × List ℕ))
    (choose2 : Bool → List ℕ → (List ℕ → Option CompressType) → Reader (CompressType × List ℕ))
    (h1 : Reads (choose1 b ours1 checksum_from_name) (vstring theirs1) (ck, vstring ours1)) where
  Reads-second :
      (use_compress : Bool)
      → (use_compress ≡ true
          → Reads (choose2 b ours2 compress_from_name) (vstring theirs2) (cp, vstring ours2))
      → Reads
          (if use_compress then choose2 b ours2 compress_from_name else pure (no_compress, []))
          (if use_compress then vstring theirs2 else [])
          ((if use_compress then cp else no_compress), (if use_compress then vstring ours2 else []))
  Reads-second true h rest = h refl rest
  Reads-second false h rest = refl

  -- The strings of the other side are read, and ours are written.
  Reads-choices :
      (negotiated use_compress : Bool)
      → (use_compress ≡ true
          → Reads (choose2 b ours2 compress_from_name) (vstring theirs2) (cp, vstring ours2))
      → Reads
          (choices_if lossy negotiated version use_compress
            (both_choices lossy choose1 choose2 b use_compress ours1 ours2))
          (strings negotiated use_compress theirs1 theirs2)
          (
            (if negotiated then ck else default_for_version version),
            (if negotiated
                then (if use_compress then cp else no_compress)
                else default_compress use_compress),
            strings negotiated use_compress ours1 ours2,
          )
  Reads-choices false use_compress h rest = refl
  Reads-choices true use_compress h rest =
      Reads-bind (choose1 b ours1 checksum_from_name)
        (λ first.
          (if use_compress then choose2 b ours2 compress_from_name else pure (no_compress, []))
          >>= λ second. pure (first.0, second.0, first.1 ++ second.1))
        (vstring theirs1) (if use_compress then vstring theirs2 else []) (ck, vstring ours1)
        (
          ck,
          (if use_compress then cp else no_compress),
          vstring ours1 ++ (if use_compress then vstring ours2 else []),
        )
        h1
        (Reads-last
          (if use_compress then choose2 b ours2 compress_from_name else pure (no_compress, []))
          (λ second. (ck, second.0, vstring ours1 ++ second.1))
          (if use_compress then vstring theirs2 else [])
          ((if use_compress then cp else no_compress), (if use_compress then vstring ours2 else []))
          (Reads-second use_compress h))
        rest

check_version_own : Reads (check_version (pos max_protocol_version)) [] max_protocol_version
unfolding check_version
check_version_own rest = refl

Reads-version : Reads read_version (write_int (pos max_protocol_version)) max_protocol_version
Reads-version rest =
    bind_ok read_int check_version (write_int (pos max_protocol_version) ++ rest)
      (read_int-write_int (pos max_protocol_version) rest (omega arith, omega arith))
    ∙ check_version_own rest

module _ (lossy : List ℕ → List ℕ) (keeps : KeepsText lossy) (info : List ℕ)
    (am_sender use_compress : Bool) (checksums compresses : List ℕ) (seed : ℤ) (ck : ChecksumType)
    (cp : CompressType) (is_seed : IsI32 seed) (checksum_text : IsText checksums)
    (compress_text : IsText compresses)
    (chosen : negotiate_as am_sender checksums checksum_list checksum_from_name ≡ ok ck)
    (compressed : use_compress ≡ true
      → negotiate_as am_sender compresses compress_list compress_from_name ≡ ok cp) where
  abbrev agreed_flags : ℕ
  agreed_flags = build_compat_flags_from_client_info info

  abbrev negotiated : Bool
  negotiated = has_bit 7 agreed_flags

  abbrev agreed : NegotiatedProtocol
  agreed =
      finish_handshake max_protocol_version agreed_flags
        (if negotiated then ck else default_for_version max_protocol_version)
        (if negotiated
          then (if use_compress then cp else no_compress)
          else default_compress use_compress)
        seed

  abbrev from_client : List ℕ
  from_client =
      write_int (pos max_protocol_version) ++ strings negotiated use_compress checksums compresses

  abbrev from_server : List ℕ
  from_server =
      write_int (pos max_protocol_version)
      ++ (write_varint agreed_flags
          ++ (strings negotiated use_compress checksum_list compress_list ++ write_int seed))

  own_checksums : IsText checksum_list
  own_checksums = (ascii_text checksum_list refl, omega arith)

  own_compresses : IsText compress_list
  own_compresses = (ascii_text compress_list refl, omega arith)

  client_side :
      (checksum_choice compress_choice : Option (List ℕ))
      → unwrap_or checksum_choice checksum_list ≡ checksums
      → unwrap_or compress_choice compress_list ≡ compresses
      → Reads
          (client_handshake lossy am_sender use_compress checksum_choice compress_choice)
          from_server
          (agreed, from_client)
  unfolding client_handshake
  client_side checksum_choice compress_choice e k =
      rw (e, k)
        (Reads-bind read_version _ (write_int (pos max_protocol_version)) _ max_protocol_version
          (agreed, from_client) Reads-version
          (Reads-bind (read_flags max_protocol_version) _ (write_varint agreed_flags) _ agreed_flags
            (agreed, from_client)
            (λ rest.
              read_varint-write_varint agreed_flags rest
                (omega (arith, fold_flags-lt info 3 (omega arith))))
            (Reads-bind
              (choices_if lossy negotiated max_protocol_version use_compress (
                both_choices lossy (client_choice lossy) (client_choice lossy) am_sender
                  use_compress checksums compresses))
              _ (strings negotiated use_compress checksum_list compress_list) (write_int seed) _
              (agreed, from_client)
              (Reads-choices am_sender max_protocol_version checksums checksum_list compresses
                compress_list ck cp lossy (client_choice lossy) (client_choice lossy)
                (Reads-client lossy keeps am_sender checksums checksum_list checksum_from_name ck
                  checksum_text own_checksums chosen)
                negotiated use_compress
                (λ c.
                  Reads-client lossy keeps am_sender compresses compress_list compress_from_name cp
                    compress_text own_compresses (compressed c)))
              (Reads-last read_int
                (λ s. (
                  finish_handshake max_protocol_version agreed_flags
                      (if negotiated then ck else default_for_version max_protocol_version)
                      (if negotiated
                        then (if use_compress then cp else no_compress)
                        else default_compress use_compress)
                      s,
                  from_client,
                ))
                (write_int seed) seed (λ rest. read_int-write_int seed rest is_seed)))))

  server_side :
      Reads
        (server_handshake lossy info (not am_sender) use_compress seed)
        from_client
        (agreed, from_server)
  unfolding server_handshake
  server_side =
      Reads-bind read_version _ (write_int (pos max_protocol_version)) _ max_protocol_version
        (agreed, from_server) Reads-version
        (Reads-last
          (choices_if lossy negotiated max_protocol_version use_compress (
            both_choices lossy (server_choice lossy) (server_choice lossy) (not am_sender)
              use_compress checksum_list compress_list))
          (λ chosen. (
            finish_handshake max_protocol_version agreed_flags chosen.0 chosen.1 seed,
            write_int (pos max_protocol_version)
                ++ (write_varint agreed_flags ++ (chosen.2 ++ write_int seed)),
          ))
          (strings negotiated use_compress checksums compresses) _
          (Reads-choices (not am_sender) max_protocol_version checksum_list checksums compress_list
            compresses ck cp lossy (server_choice lossy) (server_choice lossy)
            (Reads-server lossy keeps (not am_sender) checksum_list checksums checksum_from_name ck
              own_checksums checksum_text
              (negotiate_as-not am_sender checksums checksum_list checksum_from_name ∙ chosen))
            negotiated use_compress
            (λ c.
              Reads-server lossy keeps (not am_sender) compress_list compresses compress_from_name
                cp own_compresses compress_text
                (negotiate_as-not am_sender compresses compress_list compress_from_name
                  ∙ compressed c))))

  -- A client and a server that read each other's bytes both succeed, with one and the same protocol:
  -- version 32, the flags that the server made from the client's capabilities, its seed, and the
  -- checksum that both choose, or MD5 where none is negotiated. The lists are texts that the decoder
  -- keeps, there is a common checksum, and a common compression where one is asked for.
  pub handshakes_agree :
      (checksum_choice compress_choice : Option (List ℕ))
      → unwrap_or checksum_choice checksum_list ≡ checksums
      → unwrap_or compress_choice compress_list ≡ compresses
      → (protocol : NegotiatedProtocol) × (client_bytes : List ℕ) × (server_bytes : List ℕ) × Reads
          (client_handshake lossy am_sender use_compress checksum_choice compress_choice)
          server_bytes
          (protocol, client_bytes)
        × Reads
            (server_handshake lossy info (not am_sender) use_compress seed)
            client_bytes
            (protocol, server_bytes)
        × (protocol.version ≡ 32)
        × (protocol.compat_flags ≡ build_compat_flags_from_client_info info)
        × (protocol.seed ≡ seed)
        × (protocol.checksum
            ≡ (if has_bit 7 (build_compat_flags_from_client_info info) then ck else md5_type))
  unfolding default_for_version
  handshakes_agree checksum_choice compress_choice e k = (
    agreed,
    from_client,
    from_server,
    client_side checksum_choice compress_choice e k,
    server_side,
    refl,
    refl,
    refl,
    refl,
  )

-- From the capabilities that a client names, a server makes the same flags whatever the client
-- asks for: all of bits 0 to 8 but that of the conversion of symbolic links.
pub build_compat_flags-build_capability_string :
    (inc_recurse symlink_times iconv : Bool)
    → build_compat_flags_from_client_info (build_capability_string inc_recurse symlink_times iconv)
      ≡ 507
unfolding build_capability_string fold_flags
build_compat_flags-build_capability_string false false false = refl
build_compat_flags-build_capability_string false false true = refl
build_compat_flags-build_capability_string false true false = refl
build_compat_flags-build_capability_string false true true = refl
build_compat_flags-build_capability_string true false false = refl
build_compat_flags-build_capability_string true false true = refl
build_compat_flags-build_capability_string true true false = refl
build_compat_flags-build_capability_string true true true = refl
