-- ===== src/Windows/PairTests.antt =====
-- Runs of a Linux client and a Windows client, and the witness of a theorem about them.

use sync_clipboard.Client.Handlers.{handle}
use sync_clipboard.Client.Message.{Object}
use sync_clipboard.Client.Monitor.{poll}
use sync_clipboard.Client.PairTests.{strings_of, strings_of-IsFaithful, toy_config, toy_libs}
use sync_clipboard.Client.Samples.{sample_env, text_look}
use sync_clipboard.Client.Shell.{clipboard_has_file, clipboard_has_image}
use sync_clipboard.Client.State.{fresh, is_suppressed, text_set}
use sync_clipboard.Codec.{bytes_to_hex}
use sync_clipboard.Crypto.Toy.{toy_key-IsKey, toy_ssl-IsSound, toy_ssl-IsWorking}
use sync_clipboard.Digest.{sha256_hex}
use sync_clipboard.Prelude.{[], arith, codes, contains, refl, replicate, same, true, ◌++◌, ◌∷◌, ◌≡◌}
use sync_clipboard.Windows.Desk.{fresh_desk}
use sync_clipboard.Windows.Handlers.{ws_receive}
use sync_clipboard.Windows.Monitor.{on_clipboard_changed}
use sync_clipboard.Windows.Pair.{handle-on_clipboard_changed, ws_receive-poll}
use sync_clipboard.Windows.Samples.{desktop, logged_desk, sample_stb, text_view}

back_run :
    (msg : Object) × ((on_clipboard_changed sample_stb toy_libs toy_config sample_env
        (text_view (codes "hi"))
        logged_desk).client.sent
      ≡ [] ++ msg ∷ [])
    × ((handle toy_libs toy_config sample_env (strings_of msg) fresh).board
        ≡ [] ++ text_set (codes "hi") ∷ [])
unfolding same sha256_hex bytes_to_hex
back_run =
    handle-on_clipboard_changed toy_libs toy_config toy_config strings_of strings_of-IsFaithful
      toy_ssl-IsSound toy_ssl-IsWorking toy_key-IsKey refl sample_stb sample_env sample_env
      (text_view (codes "hi")) logged_desk fresh (codes "hi") (replicate 12 0) refl refl refl refl
      refl refl refl refl refl refl (omega arith) refl

ws_receive-poll_example :
    (msg : Object) × ((poll toy_libs toy_config sample_env
        (text_look (codes "hi"))
        (record fresh { logged_in = true })).sent
      ≡ [] ++ msg ∷ [])
    × ((ws_receive sample_stb toy_libs toy_config desktop (strings_of msg) fresh_desk).client.board
        ≡ [] ++ text_set (codes "hi") ∷ [])
    × ((ws_receive sample_stb toy_libs toy_config desktop
          (strings_of msg)
          fresh_desk).client.clip_hash
        ≡ (poll toy_libs toy_config sample_env
            (text_look (codes "hi"))
            (record fresh { logged_in = true })).clip_hash)
unfolding clipboard_has_image clipboard_has_file contains same is_suppressed sha256_hex bytes_to_hex
ws_receive-poll_example =
    ws_receive-poll toy_libs toy_config toy_config strings_of strings_of-IsFaithful toy_ssl-IsSound
      toy_ssl-IsWorking toy_key-IsKey refl sample_stb sample_env desktop (text_look (codes "hi"))
      (record fresh { logged_in = true }) fresh_desk (codes "hi") (replicate 12 0) refl refl refl
      refl refl refl refl refl refl refl (omega arith) refl
