-- ===== src/Lsp/Paths.antt =====
-- `pathToUri` and `uriToPath` of compiler/src/lsp/uri.inc on the paths of a drive.
use hphl.Base.{
  ℕ, Bool, true, false, not, ◌&&◌, [], ◌∷◌, ◌==◌, if◌then◌else◌, ◌≡◌, refl, ap, ◌∙◌, and_left,
  and_right, and_intro, arith,
}
use hphl.Json.{Bytes}
use hphl.Json.Fresh.{false_of_not}
use hphl.Lsp.Uri.{
  url_decode, without_prefix, is_alpha, without_slash, exchange, uri_to_path, path_to_uri,
}

-- No byte of a path is a slash or a percent sign.
unfoldable pub is_plain_path : Bytes → Bool
is_plain_path [] = true
is_plain_path (c ∷ s) = not (c == 37) && (not (c == 47) && is_plain_path s)

has_no_percent : Bytes → Bool
has_no_percent [] = true
has_no_percent (c ∷ s) = not (c == 37) && has_no_percent s

url_decode-plain : (s : Bytes) → has_no_percent s ≡ true → url_decode s ≡ s
unfolding url_decode has_no_percent
url_decode-plain [] h = refl
url_decode-plain (c ∷ []) h = refl
url_decode-plain (c ∷ a ∷ []) h = refl
url_decode-plain (c ∷ a ∷ b ∷ s) h =
    rw (false_of_not (c == 37) (and_left (not (c == 37)) _ h), url_decode)
      (ap (λ (t : Bytes). c ∷ t) (url_decode-plain (a ∷ b ∷ s) (and_right (not (c == 37)) _ h)))

exchange_back : (s : Bytes) → is_plain_path s ≡ true → exchange 47 92 (exchange 92 47 s) ≡ s
unfolding exchange is_plain_path
exchange_back [] h = refl
exchange_back (c ∷ s) h =
    let rest = and_right (not (c == 37)) _ h in
    let e : (c == 47) ≡ false = false_of_not (c == 47) (and_left (not (c == 47)) _ rest) in
    let b : (if (if c == 92 then 47 else c) == 47 then 92 else (if c == 92 then 47 else c)) ≡ c =
      ground (arith, e) in
    ap (λ (x : ℕ). x ∷ exchange 47 92 (exchange 92 47 s)) b
    ∙ ap (λ (t : Bytes). c ∷ t) (exchange_back s (and_right (not (c == 47)) _ rest))

exchange-has_no_percent :
    (s : Bytes) → is_plain_path s ≡ true → has_no_percent (exchange 92 47 s) ≡ true
unfolding exchange has_no_percent is_plain_path
exchange-has_no_percent [] h = refl
exchange-has_no_percent (c ∷ s) h =
    let e : (c == 37) ≡ false = false_of_not (c == 37) (and_left (not (c == 37)) _ h) in
    let rest = and_right (not (c == 47)) _ (and_right (not (c == 37)) _ h) in
    let b : not ((if c == 92 then 47 else c) == 37) ≡ true = ground (arith, e) in
    and_intro (not ((if c == 92 then 47 else c) == 37)) _ b (exchange-has_no_percent s rest)

-- The path of a drive, without slashes and percent signs, comes back from its URI.
pub uri_to_path-path_to_uri :
    (c : ℕ) (s : Bytes)
    → is_alpha c ≡ true
    → is_plain_path s ≡ true
    → uri_to_path (path_to_uri true (c ∷ 58 ∷ s)) ≡ c ∷ 58 ∷ s
unfolding uri_to_path path_to_uri exchange without_prefix has_no_percent
uri_to_path-path_to_uri c s h k =
    let p : (c == 92) ≡ false = ground (arith, h) in
    let q : (c == 37) ≡ false = ground (arith, h) in
    let r : (c == 47) ≡ false = ground (arith, h) in
    let t = exchange 92 47 s in
    let plain : has_no_percent (47 ∷ c ∷ 58 ∷ t) ≡ true = rw q (exchange-has_no_percent s k) in
    let slash : without_slash (47 ∷ c ∷ 58 ∷ t) ≡ c ∷ 58 ∷ t = rw h refl in
    rw p (
      ap (λ (x : Bytes). exchange 47 92 (without_slash x))
        (url_decode-plain (47 ∷ c ∷ 58 ∷ t) plain)
      ∙ ap (exchange 47 92) slash
      ∙ (rw r (ap (λ (x : Bytes). c ∷ 58 ∷ x) (exchange_back s k))))
