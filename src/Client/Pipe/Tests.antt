-- ===== src/Client/Pipe/Tests.antt =====
-- Runs of the reads from a pipe, and the witnesses of their theorems.
use sync_clipboard.Client.Pipe.{Fread, pipe_get_text, pipe_read_type, pipe_refresh_types, type_loop}
use sync_clipboard.Client.Pipe.Whole.{
  IsFread, Refused, pipe_get_text-take, pipe_read_type-AllOrNone,
}
use sync_clipboard.Client.X11.{not_empty}
use sync_clipboard.Prelude.{
  [], arith, codes, false, if◌then◌else◌, ltb, maybe, min, none, refl, some, take, true, ◌*◌, ◌≡◌,
  ◌⊎◌,
}

-- A pipe that gives three bytes at a time.
abbrev by_three : Fread
by_three room left = min room (min left 3)

by_three-IsFread : IsFread by_three
by_three-IsFread room left = (omega arith, omega arith, λ r l. omega (arith, r, l))

-- A buffer of four bytes is doubled twice.
type_loop-doubled :
    type_loop by_three (λ size. true) 13 4 (codes "text/uri-list") [] ≡ some (codes "text/uri-list")
unfolding type_loop
type_loop-doubled = refl

-- Eight bytes can be had, sixteen not.
type_loop-refused : type_loop by_three (λ size. ltb size 16) 13 4 (codes "text/uri-list") [] ≡ none
unfolding type_loop
type_loop-refused = refl

pipe_get_text-take_example :
    pipe_get_text by_three true (some (codes "copied text"))
    ≡ (if true then not_empty (take 1048575 (codes "copied text")) else none)
pipe_get_text-take_example = pipe_get_text-take by_three by_three-IsFread true (codes "copied text")

pipe_read_type-AllOrNone_example :
    let r = pipe_read_type by_three true (λ size. true) (some (codes "image")) in
    (r ≡ not_empty (codes "image"))
    ⊎ ((r ≡ none) × ((true ≡ false) ⊎ Refused (λ size. true) (1024 * 1024) (codes "image")))
pipe_read_type-AllOrNone_example =
    pipe_read_type-AllOrNone by_three by_three-IsFread true (λ size. true) (codes "image")

pipe_refresh_types-cut : pipe_refresh_types by_three 3 (some (codes "TARGETS")) ≡ codes "TA"
unfolding pipe_refresh_types maybe
pipe_refresh_types-cut = refl
