-- ===== src/Data/RecordId.antt =====
-- `make_record_id` of backend/app/data/helpers.py: a readable id that no row has yet.
pub mod Fresh
use ai_writing.Common.{
  ℕ, zero, suc, ◌+◌, Bool, true, false, ◌&&◌, ◌||◌, List, [], ◌∷◌, ◌++◌, Str, codes, is_empty, leb,
  ◌==◌, contains, length, decimal, strip_by, if◌then◌else◌, list_eq, nat_eq, ◌≡◌, refl,
}

-- `[a-z0-9]`
unfoldable pub is_slug_char : ℕ → Bool
is_slug_char c = (leb b'a' c && leb c b'z') || (leb b'0' c && leb c b'9')

-- `str.lower` on one character, as far as the pattern after it can see: beside A to Z, only
-- U+212A (Kelvin) and U+0130 (I with a dot, which becomes i and U+0307) lower to a character of
-- the pattern. Any other character stays outside the pattern, and is left as it is.
unfoldable pub lower_char : ℕ → Str
lower_char c =
    if leb b'A' c && leb c b'Z'
    then (c + 32) ∷ []
    else if c == 0x212a
    then b'k' ∷ []
    else if c == 0x130
    then b'i' ∷ 0x307 ∷ []
    else c ∷ []

unfoldable pub lower : Str → Str
unfolding lower_char
lower [] = []
lower (c ∷ s) = lower_char c ++ lower s

-- `sub(r"[^a-z0-9]+", "-", s)`: each longest run of other characters becomes one dash. The flag
-- says whether the scan stands inside such a run.
unfoldable pub dashed : Bool → Str → Str
unfolding is_slug_char
dashed in_run [] = []
dashed in_run (c ∷ s) =
    let kept = dashed false s in
    let skipped = dashed true s in
    if is_slug_char c then c ∷ kept else if in_run then skipped else b'-' ∷ skipped

unfoldable pub slug : Str → Str
unfolding lower dashed strip_by
slug title =
    let base = strip_by (λ c. c == b'-') (dashed false (lower title)) in
    if is_empty base then codes "project" else base

-- `f"{base}-{suffix}"`
abbrev pub suffixed : Str → ℕ → Str
suffixed base suffix = base ++ b'-' ∷ decimal suffix

-- The `while candidate in existing_ids` loop, on fuel.
unfoldable pub next_free : ℕ → Str → List Str → Str → ℕ → Str
next_free zero base existing candidate suffix = candidate
next_free (suc fuel) base existing candidate suffix =
    let rest = next_free fuel base existing (suffixed base suffix) (suffix + 1) in
    if contains existing candidate then rest else candidate

-- One round more than there are ids is fuel enough, as `make_record_id_fresh` shows.
unfoldable pub make_record_id : Str → List Str → Str
make_record_id title existing =
    let base = slug title in next_free (suc (length existing)) base existing base 2
