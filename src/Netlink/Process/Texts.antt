-- ===== src/Netlink/Process/Texts.antt =====
-- One message that the process of linux/netlink_socket/netlink_user.c receives, and the texts in
-- the module's messages.
use clpsz_demos.Base.{
  ◌≤◌, ◌≡◌, refl, some, [], ◌∷◌, ◌++◌, Bytes, arith, length, length-append, length-drop, drop,
  take-all, drop-append,
}
use clpsz_demos.Json.Text.{text_of}
use clpsz_demos.Netlink.{Netlink, cleared, got_once, got_twice}
use clpsz_demos.Netlink.Messages.{carrying, length-cleared}
use clpsz_demos.Netlink.Process.{SockaddrNl, Process, take_message}
use clpsz_demos.Uart.Block.{write_bytes_whole}

pub take_message_lem :
    (from_addr : SockaddrNl) (header payload text : Bytes) (p : Process)
    → length header ≡ 16
    → length payload ≡ 1024
    → length p.msg_buf ≡ 1040
    → text_of payload ≡ some text
    → take_message from_addr (header ++ payload) p
      ≡ some (record p {
        dest_addr = from_addr;
        msg_buf = header ++ payload;
        printed = p.printed ++ text ∷ [];
      })
unfolding take_message
take_message_lem from_addr header payload text p short size room has_text =
    let all : length (header ++ payload) ≡ 1040 = omega (arith, length-append header payload) in
    rw (
      take-all 1040 (header ++ payload) all,
      write_bytes_whole (header ++ payload) p.msg_buf (omega arith),
      drop-append 16 header payload short,
      has_text,
    )

-- The payload of a message from the module fills the buffer behind the header.
pub length-carrying :
    (net : Netlink) (xs : Bytes) → length xs ≤ 1024 → length (carrying net xs).payload ≡ 1024
length-carrying net xs fits = omega (
  arith,
  length-append xs (drop (length xs) (cleared 1024)),
  length-drop (length xs) (cleared 1024),
  length-cleared 1024,
)

pub text_of-once :
    (net : Netlink) (once : Bytes)
    → text_of (carrying net (got_once ++ (0 ∷ once))).payload ≡ some got_once
unfolding text_of
text_of-once net once = refl

pub text_of-twice :
    (net : Netlink) (twice : Bytes)
    → text_of (carrying net (got_twice ++ (0 ∷ twice))).payload ≡ some got_twice
unfolding text_of
text_of-twice net twice = refl
