-- ===== src/Hostsfile/Oversized.antt =====
-- A host entry that is too long for pkg/hostsfile/parser.go to read back.
use localizer.Base.{
  ℕ, ◌<◌, ◌≡◌, refl, sym, ap, subst, ◌∙◌, true, false, List, [], ◌∷◌, ◌++◌, map, some, Bytes, split,
  join, Lacks, All, length, length-append, ok, arith, str_eq, str_eq_iff, Bool-cases, inl, inr,
  append_assoc, append-nil, ◌==◌, split_cons, is_ok, is_err, is_panic, is_blocked, result_cases,
}
use localizer.Base.Dict.{Dict, lookup, keys}
use localizer.Hostsfile.Scanner.{max_token}
use localizer.Hostsfile.Scanner.Limits.{AllShort}
use localizer.Hostsfile.Block.{Platform, HostLine, host_line, sort_ips, block_lines, generate_block}
use localizer.Hostsfile.Block.Sorting.{is_some, elem, elem-keys, elem-sort_ips}

-- A piece of a text, and an item of a list.
abbrev pub Contains : Bytes → Bytes → Type 0
Contains piece text = (a : Bytes) × (z : Bytes) × (text ≡ a ++ (piece ++ z))

abbrev pub Among : Bytes → List Bytes → Type 0
Among l ls = (xs : List Bytes) × (ys : List Bytes) × (ls ≡ xs ++ (l ∷ ys))

pub Contains-trans : (x y z : Bytes) → Contains x y → Contains y z → Contains x z
Contains-trans x y z (a, b, e) (c, d, f) = (
  c ++ a,
  b ++ d,
  f
      ∙ (ap (λ t. c ++ (t ++ d)) e
          ∙ (ap (λ t. c ++ t) (append_assoc a (x ++ b) d ∙ ap (λ t. a ++ t) (append_assoc x b d))
              ∙ sym (append_assoc c a (x ++ (b ++ d))))),
)

Contains-cons : (l text : Bytes) (c : ℕ) → Contains l text → Contains l (c ∷ text)
Contains-cons l text c (a, z, e) = (c ∷ a, z, ap (◌∷◌ c) e)

Contains-append : (l pre text : Bytes) → Contains l text → Contains l (pre ++ text)
Contains-append l [] text h = h
Contains-append l (c ∷ pre) text h = Contains-cons l (pre ++ text) c (Contains-append l pre text h)

Contains-join : (sep : ℕ) (l : Bytes) (xs ys : List Bytes) → Contains l (join (xs ++ (l ∷ ys)) sep)
unfolding join
Contains-join sep l [] [] = ([], [], sym (append-nil l))
Contains-join sep l [] (y ∷ ys) = ([], sep ∷ join (y ∷ ys) sep, refl)
Contains-join sep l (x ∷ []) ys =
    Contains-append l x _ (Contains-cons l _ sep (Contains-join sep l [] ys))
Contains-join sep l (x ∷ x' ∷ xs) ys =
    Contains-append l x _ (Contains-cons l _ sep (Contains-join sep l (x' ∷ xs) ys))

pub Contains-join-Among : (l : Bytes) (ls : List Bytes) → Among l ls → Contains l (join ls b'\n')
Contains-join-Among l ls (xs, ys, e) =
    subst (λ q. Contains l (join q b'\n')) (sym e) (Contains-join b'\n' l xs ys)

split_head :
    (l z : Bytes)
    → Lacks b'\n' l
    → (h : Bytes) × (t : List Bytes) × (split (l ++ z) b'\n' ≡ (l ++ h) ∷ t)
unfolding split
split_head [] z free = split_cons b'\n' z
split_head (c ∷ l) z free =
    let (h, t, e) = split_head l z free.1 in
    let other : (c == b'\n') ≡ false = ground (arith, free.0) in (h, t, rw (other, e) refl)

tail_short : (c : ℕ) (cs : Bytes) → AllShort (c ∷ cs) → AllShort cs
unfolding split
tail_short c cs h = elim (Bool-cases (c == b'\n')) [
  | inl hit ↦ (subst (λ q. All (λ l. length l < max_token) q) (first_empty hit) h).1
  | inr miss ↦
      let (x, t, e) = split_cons b'\n' cs in
      let both = subst (λ q. All (λ l. length l < max_token) q) (first_longer miss x t e) h in
      let bound : length x < max_token = let more = both.0 in omega arith in
      subst (λ q. All (λ l. length l < max_token) q) (sym e) (bound, both.1)
]
  where
    first_empty : (c == b'\n') ≡ true → split (c ∷ cs) b'\n' ≡ [] ∷ split cs b'\n'
    first_empty hit = rw hit refl

    first_longer :
        (c == b'\n') ≡ false
        → (x : Bytes) (t : List Bytes) → split cs b'\n' ≡ x ∷ t
        → split (c ∷ cs) b'\n' ≡ (c ∷ x) ∷ t
    first_longer miss x t e = rw (miss, e) refl

-- A stretch with no newline lies in one line.
short_piece : (a l z : Bytes) → Lacks b'\n' l → AllShort (a ++ (l ++ z)) → length l < max_token
unfolding split
short_piece [] l z free h =
    let (x, t, e) = split_head l z free in
    let bound = (subst (All (λ q. length q < max_token)) e h).0 in
    omega (arith, bound, length-append l x)
short_piece (c ∷ a) l z free h = short_piece a l z free (tail_short c (a ++ (l ++ z)) h)

pub short_of_Contains :
    (l text : Bytes) → Lacks b'\n' l → Contains l text → AllShort text → length l < max_token
short_of_Contains l text free (a, z, e) h = short_piece a l z free (subst AllShort e h)

Among-elem : (k : Bytes) (ls : List Bytes) → elem k ls ≡ true → Among k ls
unfolding elem
Among-elem k [] h = cc
Among-elem k (l ∷ ls) h = elim (Bool-cases (str_eq l k)) [
  | inl hit ↦ ([], ls, ap (λ q. q ∷ ls) ((str_eq_iff l k).0 hit))
  | inr miss ↦ let (xs, ys, e) = Among-elem k ls (ground arith) in (l ∷ xs, ys, ap (◌∷◌ l) e)
]

Among-map : (f : Bytes → Bytes) (k : Bytes) (ls : List Bytes) → Among k ls → Among (f k) (map f ls)
Among-map f k ls (xs, ys, e) = subst (λ q. Among (f k) (map f q)) (sym e) (here xs)
  where
    here : (xs : List Bytes) → Among (f k) (map f (xs ++ (k ∷ ys)))
    here [] = ([], map f ys, refl)
    here (x ∷ xs) = let (as', bs, q) = here xs in (f x ∷ as', bs, ap (◌∷◌ (f x)) q)

Among-append : (l : Bytes) (xs ys : List Bytes) → Among l xs → Among l (xs ++ ys)
Among-append l xs ys (a, b, e) = (a, b ++ ys, ap (λ q. q ++ ys) e ∙ append_assoc a (l ∷ b) ys)

Among-cons : (l x : Bytes) (xs : List Bytes) → Among l xs → Among l (x ∷ xs)
Among-cons l x xs (a, b, e) = (x ∷ a, b, ap (◌∷◌ x) e)

module _ (p : Platform) where
  -- The line of an address of the map stands in the block.
  pub generate_block-Contains :
      (name blk : Bytes) (now : ℕ) (hosts : Dict HostLine) (ip : Bytes) (h : HostLine)
      → lookup ip hosts ≡ some h
      → generate_block p name now hosts ≡ ok blk
      → Contains (host_line hosts ip) blk
  unfolding generate_block
  generate_block-Contains name blk now hosts ip h there made =
      elim (result_cases (p.to_json (record { block_name = name; last_modified = now }))) [
        | is_err m e ↦ absurd (ground arith)
        | is_panic e ↦ absurd (ground arith)
        | is_blocked e ↦ absurd (ground arith)
        | is_ok m e ↦
            let entries = map (host_line hosts) (sort_ips p (keys hosts)) in
            let same : join (block_lines m entries) b'\n' ≡ blk = ground arith in
            let listed : elem ip (sort_ips p (keys hosts)) ≡ true =
              elem-sort_ips p ip (keys hosts) ∙ (elem-keys ip hosts ∙ ap is_some there) in
            subst (Contains (host_line hosts ip)) same (
              Contains-join-Among (host_line hosts ip) (block_lines m entries) (
                Among-cons _ _ _ (
                  Among-cons _ _ _ (
                    Among-append _ entries _ (
                      Among-map (host_line hosts) ip (sort_ips p (keys hosts))
                        (Among-elem ip (sort_ips p (keys hosts)) listed))))))
      ]
