-- ===== src/Display/Tags.antt =====
-- The requests follow the tag format of the mailbox property interface.
use raspberry_pi_gaming_cons.Common.{
  ℕ, zero, suc, ◌+◌, ◌*◌, ◌/◌, ◌≡◌, refl, List, [], ◌∷◌, Option, none, some, leb, ◌==◌,
  if◌then◌else◌, length, drop, get_or,
}
use mathlib.Core.Option
use raspberry_pi_gaming_cons.Display.{resolution_request}

-- The tags of a message from its third word on, read as the interface does: an identifier, the size of
-- the value buffer in bytes, the length of the request in it, and the buffer; a zero ends the list, and
-- has to be the last word. `none` is a message that does not follow the format.
abbrev tags_from : ℕ → List ℕ → Option (List ℕ)
tags_from zero words = none
tags_from (suc fuel) [] = none
tags_from (suc fuel) (id ∷ words) =
    let size = get_or words 0 0 in
    let rest = tags_from fuel (drop (2 + size / 4) words) in
    if id == 0
    then (if length words == 0 then some [] else none)
    else if leb (get_or words 1 0) size
    then Option.map (λ ids. id ∷ ids) rest
    else none

-- The tags of a whole message, whose first word is its size in bytes and whose second marks a request.
abbrev pub tags : List ℕ → Option (List ℕ)
tags words =
    if get_or words 0 0 == 4 * length words
    then (if get_or words 1 0 == 0 then tags_from (length words) (drop 2 words) else none)
    else none

-- For every width and height, the request of `set_resolution` is a well-formed message of its eight
-- tags, in the order: release buffer, physical size, depth, virtual size, pixel order, virtual offset,
-- allocate buffer, pitch.
pub tags-resolution_request :
    (width height : ℕ)
    → tags (resolution_request width height)
      ≡ some (
          0x00048001 ∷ 0x00048003 ∷ 0x00048005 ∷ 0x00048004 ∷ 0x00048006 ∷ 0x00048009 ∷ 0x00040001
          ∷ 0x00040008 ∷ [])
unfolding resolution_request
tags-resolution_request width height = refl
