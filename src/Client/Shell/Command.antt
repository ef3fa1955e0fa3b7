-- ===== src/Client/Shell/Command.antt =====
-- linux/main.c: which commands the clipboard backends run.
use sync_clipboard.Client.Shell.{
  allowed, converted, is_listed, is_safe_mime, or_png, printed, wl_read_type, wl_set_image,
  xclip_read_type, xclip_set_image,
}
use sync_clipboard.Prelude.{
  &&-eq-true, Bool, Bool-cases, Bytes, List, Option, [], ap, codes, false, if◌then◌else◌, inl, inr,
  leb, maybe, none, none_is_some, refl, same, same_iff, some, subst, sym, true, ℕ, ◌&&◌, ◌++◌, ◌==◌,
  ◌||◌, ◌∙◌, ◌∷◌, ◌≡◌, ◌⊎◌,
}
use sync_clipboard.Client.Handlers.{Json, on_relay_data, take_relayed}
use sync_clipboard.Client.Message.{typed}
use sync_clipboard.Client.State.{Client, Env, Libs, image_set, suppress_clipboard_ms}
use sync_clipboard.Digest.{block_decode}

-- A letter, a digit, or one of / and -: no byte that a shell gives a meaning.
abbrev pub is_plain : ℕ → Bool
is_plain c =
    leb b'a' c && leb c b'z'
    || leb b'A' c && leb c b'Z'
    || leb b'0' c && leb c b'9'
    || c == b'/'
    || c == b'-'

abbrev pub all_plain : Bytes → Bool
all_plain [] = true
all_plain (c ∷ s) = is_plain c && all_plain s

abbrev pub all_listed_plain : List Bytes → Bool
all_listed_plain [] = true
all_listed_plain (a ∷ rest) = all_plain a && all_listed_plain rest

is_listed-plain :
    (mime : Bytes) (list : List Bytes)
    → all_listed_plain list ≡ true
    → is_listed mime list ≡ true
    → all_plain mime ≡ true
unfolding is_listed
is_listed-plain mime [] clean listed = cc
is_listed-plain mime (a ∷ rest) clean listed =
    let (now, later) = &&-eq-true (all_plain a) (all_listed_plain rest) clean in
    elim (Bool-cases (same mime a)) [
      | inl e ↦ subst (λ s. all_plain s ≡ true) (sym ((same_iff mime a).0 e)) now
      | inr e ↦
          is_listed-plain mime rest later (ap (λ b. b || is_listed mime rest) (sym e) ∙ listed)
    ]

not_run :
    (mime cmd : Bytes)
    → is_listed mime allowed ≡ false
    → (xclip_read_type mime ≡ some cmd) ⊎ (wl_read_type mime ≡ some cmd)
    → ⊥
unfolding xclip_read_type wl_read_type is_safe_mime
not_run mime cmd e (inl runs) = none_is_some _ (
    ap
      (λ (b : Bool).
        if b then some (printed "xclip -selection clipboard -t " mime " -o 2>/dev/null") else none)
      (sym e)
    ∙ runs)
not_run mime cmd e (inr runs) = none_is_some _ (
    ap (λ (b : Bool). if b then some (printed "wl-paste --type " mime " 2>/dev/null") else none)
      (sym e)
    ∙ runs)

-- The command that a backend reads a type with is run only for a type whose every byte is a letter, a
-- digit, / or -, whichever of the two backends, so that the shell sees the type as one word.
pub read_type-plain :
    (mime cmd : Bytes)
    → (xclip_read_type mime ≡ some cmd) ⊎ (wl_read_type mime ≡ some cmd)
    → all_plain mime ≡ true
unfolding xclip_read_type wl_read_type is_safe_mime
read_type-plain mime cmd runs = elim (Bool-cases (is_listed mime allowed)) [
  | inl e ↦ is_listed-plain mime allowed refl e
  | inr e ↦ absurd (not_run mime cmd e runs)
]

module _ (libs : Libs) (env : Env) (j : Json) (c : Client) (b64 dec rest : Bytes) where
  -- Where the relayed bytes can be decoded, and their type starts with "image/" and is not
  -- "image/bmp", the bytes are put on the clipboard with that type, and the type that the network gave
  -- stands in the command that the shell runs, whatever follows "image/" in it: `printed` cuts the
  -- command at 255 bytes and changes nothing else.
  pub on_relay_data-command :
      j.text (codes "data") ≡ some b64
      → block_decode libs.coder env.memory b64 ≡ some dec
      → j.text (codes "mimeType") ≡ some (codes "image/" ++ rest)
      → same (codes "image/" ++ rest) (codes "image/bmp") ≡ false
      → (bmp_to_png : Bytes → Option Bytes)
      → ((on_relay_data libs env j c).board
          ≡ c.board ++ image_set dec (codes "image/" ++ rest) ∷ [])
        × ((xclip_set_image bmp_to_png dec (some (codes "image/" ++ rest))).command
            ≡ printed "xclip -selection clipboard -t " (codes "image/" ++ rest) " -i 2>/dev/null")
        × ((wl_set_image bmp_to_png dec (some (codes "image/" ++ rest))).command
            ≡ printed "wl-copy --type " (codes "image/" ++ rest) " 2>/dev/null")
  unfolding on_relay_data take_relayed suppress_clipboard_ms xclip_set_image wl_set_image converted
      or_png maybe
  on_relay_data-command has opens typed no_bmp bmp_to_png =
      (rw (has, opens, typed) refl, rw no_bmp refl, rw no_bmp refl)
