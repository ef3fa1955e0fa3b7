-- ===== src/Client/State.antt =====
-- linux/main.c: what the threads of the Linux client share, and `TransferState`. A `char[N]` field is
-- the C string in it. What the program has done so far, in order, is kept beside its variables: the
-- messages given to `queue_send`, what it gave to the clipboard, the sockets it opened and those it
-- closed, the blocks it freed, the transfer threads that run and all that it started.
use sync_clipboard.Prelude.Int.{ℤ, pos, min_ℤ, leb_ℤ}
use sync_clipboard.Client.Message.{Object}
use sync_clipboard.Config.{ClientConfig}
use sync_clipboard.Crypto.{Openssl}
use sync_clipboard.Crypto.Cbc.{CbcCipher}
use sync_clipboard.Digest.{BlockCoder}
use sync_clipboard.Prelude.{
  Bool, Bytes, List, Option, [], false, ltb, none, replicate, some, take, ℕ, ◌++◌, ◌+◌, ◌-◌, ◌∷◌,
}

abbrev pub ft_max_addrs : ℕ
ft_max_addrs = 8

-- A block on the heap: its address and its bytes.
pub record Block : Type 0 where
  pub at : ℕ
  pub bytes : Bytes

-- `none` in `listen_fd` is FT_INVALID_SOCK.
pub record TransferState : Type 0 where
  pub file_id : Bytes
  pub file_name : Bytes
  pub mime_type : Bytes
  pub file_size : ℕ
  pub checksum : Bytes
  pub block : Option Block
  pub source_path : Bytes
  pub is_sender : Bool
  pub listen_fd : Option ℕ
  pub listen_port : ℕ
  pub peer_addrs : List Bytes
  pub peer_addr_count : ℕ
  pub peer_public_addr : Bytes
  pub from_device : Bytes
  pub max_relay_size : ℤ
  pub udp_port : ℤ
  pub phase : ℕ
  pub success : Bool
  pub eff_file_level : ℤ
  pub same_lan : Bool

-- All bytes zero, as `memset` leaves it: descriptor 0, not FT_INVALID_SOCK.
abbrev pub zero_state : TransferState
zero_state = record {
  file_id = [];
  file_name = [];
  mime_type = [];
  file_size = 0;
  checksum = [];
  block = none;
  source_path = [];
  is_sender = false;
  listen_fd = some 0;
  listen_port = 0;
  peer_addrs = replicate ft_max_addrs [];
  peer_addr_count = 0;
  peer_public_addr = [];
  from_device = [];
  max_relay_size = pos 0;
  udp_port = pos 0;
  phase = 0;
  success = false;
  eff_file_level = pos 0;
  same_lan = false;
}

-- What is given to `set_text`, `set_image` or `set_file` of the clipboard: a text, an image with its MIME
-- type, or the path of a file. If a command cannot be started there, the clipboard stays as it is.
pub data Written : Type 0 where
  text_set : Bytes → Written
  image_set : Bytes → Bytes → Written
  file_set : Bytes → Written

pub record Client : Type 0 where
  pub server_level : ℤ
  pub clip_hash : Bytes
  pub img_hash : Bytes
  pub suppress_until : ℕ
  pub xfer : TransferState
  pub active : ℕ
  pub connected : Bool
  pub authenticated : Bool
  pub logged_in : Bool
  pub has_wsi : Bool
  pub reconnect_delay : ℕ
  pub sent : List Object
  pub board : List Written
  pub files : List (Bytes × Bytes)
  pub opened : List ℕ
  pub closed : List ℕ
  pub freed : List ℕ
  pub threads : List TransferState
  pub started : List TransferState

-- The variables as the program starts with them.
abbrev pub fresh : Client
fresh = record {
  server_level = pos 3;
  clip_hash = [];
  img_hash = [];
  suppress_until = 0;
  xfer = zero_state;
  active = 0;
  connected = false;
  authenticated = false;
  logged_in = false;
  has_wsi = false;
  reconnect_delay = 1;
  sent = [];
  board = [];
  files = [];
  opened = [];
  closed = [];
  freed = [];
  threads = [];
  started = [];
}

-- What the system gives a call: the clock, if memory is granted and threads are made, the bytes of
-- uninitialised memory, the nonce, the address of a new block, the identifier of a new transfer, the
-- listening socket and its port, the local addresses with that port, and if a file can be written.
pub record Env : Type 0 where
  pub now : ℕ
  pub memory : Bool
  pub thread : Bool
  pub garbage : ℕ
  pub nonce : Option Bytes
  pub block : ℕ
  pub uuid : Bytes
  pub server : Option ℕ
  pub port : ℕ
  pub addresses : ℕ → List Bytes
  pub can_write : Bool

-- The libraries that the client calls.
pub record Libs : Type 0 where
  pub ssl : Openssl
  pub cbc : CbcCipher
  pub coder : BlockCoder
  pub digest : Bytes → Bytes

-- `strncpy(field, s, N - 1)` into a field whose last byte is NUL, where s is not NULL.
abbrev pub copy_in : ℕ → Option Bytes → Bytes → Bytes
copy_in n none old = old
copy_in n (some s) old = take (n - 1) s

unfoldable pub effective_file_level : ClientConfig → Client → ℤ
effective_file_level cfg c = min_ℤ c.server_level cfg.file_transfer_level

-- `effective_file_level() <= 0`
abbrev pub is_disabled : ClientConfig → Client → Bool
is_disabled cfg c = leb_ℤ (effective_file_level cfg c) (pos 0)

unfoldable pub suppress_clipboard_ms : ℕ → ℕ → Client → Client
suppress_clipboard_ms now ms c = record c { suppress_until = now + ms }

unfoldable pub is_suppressed : ℕ → Client → Bool
is_suppressed now c = ltb now c.suppress_until

abbrev pub queue : Object → Client → Client
queue msg c = record c { sent = c.sent ++ msg ∷ [] }

abbrev pub put : Written → Client → Client
put w c = record c { board = c.board ++ w ∷ [] }

abbrev pub as_list {ℓ} : {A : Type ℓ} → Option A → List A
as_list none = []
as_list (some a) = a ∷ []

abbrev pub address : Option Block → Option ℕ
address none = none
address (some b) = some b.at

-- A socket that a call returned.
abbrev pub open_sock : Option ℕ → Client → Client
open_sock s c = record c { opened = c.opened ++ as_list s }

-- The state is cleared for a new transfer: the old listening socket is closed, the old block freed.
unfoldable pub renew : Client → Client
renew c = record c {
  xfer = record zero_state { listen_fd = none };
  closed = c.closed ++ as_list c.xfer.listen_fd;
  freed = c.freed ++ as_list (address c.xfer.block);
}
