-- ===== src/Mux/Code.antt =====
-- Message codes of crates/ferrosync-protocol/src/multiplex.rs.
use ferrosync.Base.{ℕ, ◌<◌, ◌≡◌, refl, ◌==◌, if◌then◌else◌, arith}
use ferrosync.Wire.Stream.{Result, ok, err, unexpected_message_type}

pub data MsgCode : Type 0 where
  data_msg error_xfer info error warning error_socket log client error_utf8 redo stats : MsgCode
  io_error io_timeout noop error_exit success deleted no_send : MsgCode

-- `code as u8`
abbrev pub code_tag : MsgCode → ℕ
code_tag data_msg = 0
code_tag error_xfer = 1
code_tag info = 2
code_tag error = 3
code_tag warning = 4
code_tag error_socket = 5
code_tag log = 6
code_tag client = 7
code_tag error_utf8 = 8
code_tag redo = 9
code_tag stats = 10
code_tag io_error = 22
code_tag io_timeout = 33
code_tag noop = 42
code_tag error_exit = 86
code_tag success = 100
code_tag deleted = 101
code_tag no_send = 102

-- `MsgCode::from_tag`
unfoldable pub from_tag : ℕ → Result MsgCode
from_tag tag =
    if tag == 0
    then ok data_msg
    else if tag == 1
    then ok error_xfer
    else if tag == 2
    then ok info
    else if tag == 3
    then ok error
    else if tag == 4
    then ok warning
    else if tag == 5
    then ok error_socket
    else if tag == 6
    then ok log
    else if tag == 7
    then ok client
    else if tag == 8
    then ok error_utf8
    else if tag == 9
    then ok redo
    else if tag == 10
    then ok stats
    else if tag == 22
    then ok io_error
    else if tag == 33
    then ok io_timeout
    else if tag == 42
    then ok noop
    else if tag == 86
    then ok error_exit
    else if tag == 100
    then ok success
    else if tag == 101
    then ok deleted
    else if tag == 102
    then ok no_send
    else err (unexpected_message_type tag)

-- The tag of each message code is decoded to that code.
pub from_tag-code_tag : (c : MsgCode) → from_tag (code_tag c) ≡ ok c
unfolding from_tag
from_tag-code_tag data_msg = refl
from_tag-code_tag error_xfer = refl
from_tag-code_tag info = refl
from_tag-code_tag error = refl
from_tag-code_tag warning = refl
from_tag-code_tag error_socket = refl
from_tag-code_tag log = refl
from_tag-code_tag client = refl
from_tag-code_tag error_utf8 = refl
from_tag-code_tag redo = refl
from_tag-code_tag stats = refl
from_tag-code_tag io_error = refl
from_tag-code_tag io_timeout = refl
from_tag-code_tag noop = refl
from_tag-code_tag error_exit = refl
from_tag-code_tag success = refl
from_tag-code_tag deleted = refl
from_tag-code_tag no_send = refl

-- A tag that is decoded is the tag of the code that it gives: every other tag is an error.
pub code_tag-from_tag : (tag : ℕ) (c : MsgCode) → from_tag tag ≡ ok c → code_tag c ≡ tag
unfolding from_tag
code_tag-from_tag tag c h = ground arith

pub code_tag-lt : (c : MsgCode) → code_tag c < 103
code_tag-lt data_msg = omega arith
code_tag-lt _ = omega arith
