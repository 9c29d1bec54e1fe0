-- ===== src/Lsp/Uri.antt =====
-- Paths and URIs: compiler/src/lsp/uri.inc.
use hphl.Base.{
  ℕ, ◌+◌, ◌-◌, ◌*◌, Bool, ◌&&◌, ◌||◌, Option, none, some, [], ◌∷◌, ◌++◌, leb, ◌==◌, if◌then◌else◌,
}
use hphl.Json.{Bytes}
use hphl.Mir.{codes}

-- The lambda `hexVal`, where -1 is `none`.
abbrev pub hex_val : ℕ → Option ℕ
hex_val c =
    if leb 48 c && leb c 57
    then some (c - 48)
    else if leb 97 c && leb c 102
    then some (c - 87)
    else if leb 65 c && leb c 70
    then some (c - 55)
    else none

-- The byte of an escape, when it is one.
abbrev pub escaped : ℕ → ℕ → ℕ → Option ℕ
escaped c a b =
    if c == 37
    then elim (hex_val a) [
      | none ↦ none
      | some h ↦ elim (hex_val b) [ none ↦ none | some l ↦ some (h * 16 + l) ]
    ]
    else none

-- `urlDecode`
unfoldable pub url_decode : Bytes → Bytes
url_decode [] = []
url_decode (c ∷ []) = c ∷ []
url_decode (c ∷ a ∷ []) = c ∷ a ∷ []
url_decode (c ∷ a ∷ b ∷ s) =
    let behind = url_decode s in
    let next = url_decode (a ∷ b ∷ s) in
    elim (escaped c a b) [ none ↦ c ∷ next | some d ↦ d ∷ behind ]

-- `p.rfind(prefix, 0) == 0` and what is behind the prefix.
unfoldable pub without_prefix : Bytes → Bytes → Option Bytes
without_prefix [] s = some s
without_prefix (c ∷ p) [] = none
without_prefix (c ∷ p) (d ∷ s) = let rest = without_prefix p s in if c == d then rest else none

-- `std::isalpha`
abbrev pub is_alpha : ℕ → Bool
is_alpha c = (leb 65 c && leb c 90) || (leb 97 c && leb c 122)

-- The slash before a drive goes.
abbrev pub without_slash : Bytes → Bytes
without_slash (c ∷ d ∷ e ∷ s) =
    if c == 47 && is_alpha d && e == 58 then d ∷ e ∷ s else c ∷ d ∷ e ∷ s
without_slash s = s

-- `for (auto& c : p) if (c == from) c = to;`
unfoldable pub exchange : ℕ → ℕ → Bytes → Bytes
exchange from to [] = []
exchange from to (c ∷ s) = (if c == from then to else c) ∷ exchange from to s

abbrev pub or_else : Option Bytes → Bytes → Bytes
or_else none s = s
or_else (some t) s = t

-- `uriToPath`
unfoldable pub uri_to_path : Bytes → Bytes
uri_to_path uri =
    let p = or_else (without_prefix (codes "file://") uri) uri in
    exchange 47 92 (without_slash (url_decode p))

-- `pathToUri`; `windows` is whether `_WIN32` is defined.
unfoldable pub path_to_uri : Bool → Bytes → Bytes
path_to_uri windows path =
    let p = exchange 92 47 path in if windows then codes "file:///" ++ p else codes "file://" ++ p
