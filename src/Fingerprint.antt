-- ===== src/Fingerprint.antt =====
-- The normalisation of domain/scrape_fingerprints.py: whitespace in texts, and image addresses.
pub mod Images
use Prim.Native.Char.{Char, code}
use doxx.Base.{
  ℕ, String, Bool, true, false, ◌&&◌, ◌||◌, not, Option, none, some, List, [], ◌∷◌, ◌++◌, leb, ◌==◌,
  ◌=s=◌, if◌then◌else◌, length,
}

-- The code points that `\s` matches and that `strip` removes, the no-break space among them.
unfoldable pub is_space : ℕ → Bool
is_space c =
    (leb 9 c && leb c 13)
    || (leb 28 c && leb c 32)
    || c == 0x85
    || c == 0xa0
    || c == 0x1680
    || (leb 0x2000 c && leb c 0x200a)
    || c == 0x2028
    || c == 0x2029
    || c == 0x202f
    || c == 0x205f
    || c == 0x3000

abbrev pub space : Char
space = " "

-- `_WS_RE.sub(" ", …)`: each run of whitespace becomes one space. `after` says that the run has
-- begun.
unfoldable pub squeeze : Bool → String → String
squeeze after String.[] = String.[]
squeeze after (String.◌∷◌ c s) =
    let white = is_space (code c) in
    let rest = squeeze white s in
    if white then (if after then rest else String.◌∷◌ space rest) else String.◌∷◌ c rest

abbrev pub is_blank : String → Bool
is_blank String.[] = true
is_blank (String.◌∷◌ c s) = false

unfoldable pub strip_start : String → String
strip_start String.[] = String.[]
strip_start (String.◌∷◌ c s) =
    let rest = strip_start s in if is_space (code c) then rest else String.◌∷◌ c s

unfoldable pub strip_end : String → String
strip_end String.[] = String.[]
strip_end (String.◌∷◌ c s) =
    let rest = strip_end s in
    if is_space (code c) && is_blank rest then String.[] else String.◌∷◌ c rest

-- `normalize_text` of a text; `None` stays `None`, and an empty result becomes `None`.
unfoldable pub normalize_text : String → Option String
normalize_text value =
    let text = strip_end (strip_start (squeeze false value)) in
    if is_blank text then none else some text

-- `urlsplit(…)`: the scheme in lower case, and the network location
abbrev pub UrlSplit : Type 0
UrlSplit = String → String × String

unfoldable pub is_valid_http_url : UrlSplit → String → Bool
is_valid_http_url urlsplit value =
    let (scheme, netloc) = urlsplit value in
    not (is_blank value) && ((scheme =s= "http" || scheme =s= "https") && not (is_blank netloc))

abbrev pub mem_text : String → List String → Bool
mem_text a [] = false
mem_text a (x ∷ xs) = a =s= x || mem_text a xs

abbrev pub max_image_urls : ℕ
max_image_urls = 100

-- The test of one round of the loop: the address to append, if any. `seen` and `unique` hold the
-- same addresses, so one list serves.
unfoldable pub next_url : UrlSplit → String → List String → Option String
next_url urlsplit raw unique = elim (normalize_text raw) [
  | none ↦ none
  | some u ↦ if is_valid_http_url urlsplit u && not (mem_text u unique) then some u else none
]

unfoldable pub collect_urls : UrlSplit → List String → List String → List String
collect_urls urlsplit [] unique = unique
collect_urls urlsplit (raw ∷ rest) unique = elim (next_url urlsplit raw unique) [
  | none ↦ collect_urls urlsplit rest unique
  | some u ↦
      let unique' = unique ++ (u ∷ []) in
      let more = collect_urls urlsplit rest unique' in
      if leb max_image_urls (length unique') then unique' else more
]

unfoldable pub normalize_image_urls : UrlSplit → List String → List String
normalize_image_urls urlsplit image_urls = collect_urls urlsplit image_urls []
