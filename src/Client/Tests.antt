-- ===== src/Client/Tests.antt =====
-- Runs of the client's operations, and the witnesses of their theorems.

use sync_clipboard.Client.Handlers.{Json, decrypt, on_clipboard, on_relay_data, take_relayed}
use sync_clipboard.Client.Message.{sc_msg_build, sc_msg_hello}
use sync_clipboard.Client.Monitor.{Look, poll, poll_primary}
use sync_clipboard.Client.Monitor.Echo.{on_clipboard-poll, on_relay_data-poll}
use sync_clipboard.Client.Samples.{fetch, json_of, sample_env, sample_libs, text_look}
use sync_clipboard.Client.Session.{dial, on_established, on_lost}
use sync_clipboard.Client.Session.Backoff.{
  Event, InRange, attempts, attempts-InRange, came_up, tried, went_down,
}
use sync_clipboard.Client.Shell.{
  Piped, clipboard_get_file_uri, clipboard_get_image, clipboard_has_file, clipboard_has_image,
  is_listed, is_safe_mime, printed, wl_set_file, wl_set_image, xclip_read_type, xclip_set_image,
}
use sync_clipboard.Client.Shell.Command.{all_plain, on_relay_data-command, read_type-plain}
use sync_clipboard.Client.Shell.Path.{clipboard_get_file_uri-wl_set_file}
use sync_clipboard.Client.State.{
  Client, Env, effective_file_level, fresh, image_set, is_suppressed, suppress_clipboard_ms,
  zero_state,
}
use sync_clipboard.Client.Thread.{receiver_thread}
use sync_clipboard.Client.Thread.Report.{Reported, receiver_thread-Reported}
use sync_clipboard.Client.Uri.{url_decode}
use sync_clipboard.Codec.{hex_loop, hex_to_bytes}
use sync_clipboard.Config.{defaults}
use sync_clipboard.Crypto.{gcm_decrypt}
use sync_clipboard.Crypto.Cbc.{aes_decrypt, open_cbc}
use sync_clipboard.Digest.{block_decode, drop_pad}
use sync_clipboard.Prelude.{
  All, Bytes, List, Option, [], arith, codes, contains, cut_at, false, if◌then◌else◌, inl, maybe,
  none, refl, replicate, same, some, true, ◌++◌, ◌∷◌, ◌≡◌, ◌⊎◌,
}
use sync_clipboard.Client.Monitor.Turns.{Turned, poll-Turned}

-- A text that came encrypted: sixteen bytes of IV, then the text.
abbrev pasted : Json
pasted =
    json_of
      ((codes "type", codes "clipboard") ∷ (codes "content", replicate 16 1 ++ codes "hi") ∷ [])

pasted-decrypt :
    decrypt sample_libs defaults sample_env (replicate 16 1 ++ codes "hi") ≡ some (codes "hi")
unfolding decrypt gcm_decrypt hex_to_bytes hex_loop aes_decrypt open_cbc maybe
pasted-decrypt = refl

on_clipboard-poll_example :
    let after = on_clipboard sample_libs defaults sample_env pasted fresh in
    (poll sample_libs defaults sample_env (text_look (codes "hi")) after ≡ after)
    × (poll_primary sample_libs defaults sample_env (text_look (codes "hi")) after ≡ after)
unfolding clipboard_has_image clipboard_has_file contains same
on_clipboard-poll_example =
    on_clipboard-poll sample_libs defaults sample_env pasted fresh (replicate 16 1 ++ codes "hi")
      (codes "hi") refl pasted-decrypt sample_env (text_look (codes "hi")) refl refl refl refl

-- An image that was relayed.
abbrev relayed : Json
relayed = json_of ((codes "data", codes "PNG") ∷ (codes "mimeType", codes "image/png") ∷ [])

abbrev image_look : Look
image_look = record (text_look []) {
  types = codes "image/png";
  read = λ mime. if same mime (codes "image/png") then some (codes "PNG") else none;
}

on_relay_data-poll_example :
    poll sample_libs defaults sample_env image_look
      (on_relay_data sample_libs sample_env relayed fresh)
    ≡ on_relay_data sample_libs sample_env relayed fresh
unfolding clipboard_has_image contains clipboard_get_image maybe same on_relay_data block_decode
    take_relayed suppress_clipboard_ms effective_file_level drop_pad
on_relay_data-poll_example =
    on_relay_data-poll sample_libs defaults sample_env relayed fresh (codes "PNG") (codes "PNG")
      refl refl refl sample_env image_look (codes "image/png") refl refl refl

receiver_thread-Reported_example :
    Reported fetch
      (record zero_state { file_id = codes "f1" })
      []
      (receiver_thread fetch (record zero_state { file_id = codes "f1" }) fresh).sent
receiver_thread-Reported_example =
    receiver_thread-Reported fetch (record zero_state { file_id = codes "f1" }) fresh refl

abbrev events : List Event
events =
    tried false true
    ∷ tried true false
    ∷ tried true true
    ∷ came_up sample_env
    ∷ went_down
    ∷ tried false true
    ∷ []

attempts_run : (attempts defaults events fresh).0 ≡ 1 ∷ 2 ∷ 1 ∷ []
unfolding attempts dial on_established on_lost maybe sc_msg_hello sc_msg_build
attempts_run = refl

attempts-InRange_run :
    All InRange (attempts defaults events fresh).0
    × ((env : Env) (c : Client)
        → (dial false false (on_lost (on_established defaults env c))).0 ≡ some 1)
attempts-InRange_run = attempts-InRange defaults events

abbrev file_read : Piped → Bytes → Option Bytes
file_read piped mime =
    if same mime (codes "x-special/gnome-copied-files") then some piped.input else none

-- A NUL behind the bytes.
abbrev ended : Bytes → Bytes
ended bytes = 0 ∷ []

abbrev spaced : Bytes
spaced = codes "/tmp/a%20b"

-- The file "a%20b" comes back as another name.
renamed : url_decode spaced ≡ codes "/tmp/a b"
unfolding url_decode
renamed = refl

wl_set_file_unseen : clipboard_get_file_uri (file_read (wl_set_file spaced)) ended ≡ none
unfolding same cut_at
wl_set_file_unseen =
    clipboard_get_file_uri-wl_set_file (file_read (wl_set_file spaced)) ended spaced refl
      (ground arith) refl refl

read_type_run : all_plain (codes "image/png") ≡ true
unfolding xclip_read_type is_safe_mime is_listed same
read_type_run =
    read_type-plain (codes "image/png")
      (printed "xclip -selection clipboard -t " (codes "image/png") " -o 2>/dev/null") (inl refl)

-- A type from the network with a command in it.
abbrev hostile : Json
hostile = json_of ((codes "data", codes "x") ∷ (codes "mimeType", codes "image/png;id #") ∷ [])

on_relay_data-command_run :
    ((on_relay_data sample_libs sample_env hostile fresh).board
      ≡ [] ++ image_set (codes "x") (codes "image/" ++ codes "png;id #") ∷ [])
    × ((xclip_set_image (λ b. none) (codes "x") (some (codes "image/" ++ codes "png;id #"))).command
        ≡ printed "xclip -selection clipboard -t "
            (codes "image/" ++ codes "png;id #")
            " -i 2>/dev/null")
    × ((wl_set_image (λ b. none) (codes "x") (some (codes "image/" ++ codes "png;id #"))).command
        ≡ printed "wl-copy --type " (codes "image/" ++ codes "png;id #") " 2>/dev/null")
unfolding block_decode drop_pad same
on_relay_data-command_run =
    on_relay_data-command sample_libs sample_env hostile fresh (codes "x") (codes "x")
      (codes "png;id #") refl refl refl refl (λ b. none)

-- A client that is logged in and sees a new text.
abbrev logged : Client
logged = record fresh { logged_in = true }

poll-Turned_example :
    (poll sample_libs defaults sample_env (text_look (codes "hi")) logged ≡ logged)
    ⊎ ((logged.logged_in ≡ true)
        × (is_suppressed 1000 logged ≡ false)
        × Turned defaults sample_env
            (text_look (codes "hi"))
            logged
            (poll sample_libs defaults sample_env (text_look (codes "hi")) logged))
poll-Turned_example = poll-Turned sample_libs defaults sample_env (text_look (codes "hi")) logged
