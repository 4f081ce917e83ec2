-- ===== src/Hostsfile/Generated.antt =====
-- The block that `generateBlock` of pkg/hostsfile/parser.go writes, as the scanner reads it again.
use localizer.Base.{
  ℕ, ◌≤◌, ◌<◌, ◌≡◌, refl, ap, ◌∙◌, false, List, [], ◌∷◌, ◌++◌, map, some, Bytes, codes, split, join,
  Lacks, split-append_sep, split-join, join-splice, All, All-append, length, ok, arith, str_eq_iff,
  append_assoc,
}
use localizer.Base.Dict.{Dict, keys}
use localizer.Hostsfile.Scanner.{scan_lines, max_token}
use localizer.Hostsfile.Scanner.Lines.{
  IsLine, NoFinalCr, EndsFull, scan_lines-join, EndsFull-append,
}
use localizer.Hostsfile.Block.{
  HostLine, Platform, block_start, block_end, plain, marker, hashes, start_marker, end_marker,
  parse_metadata, addresses_of, host_line, sort_ips, block_lines,
}
use localizer.Hostsfile.Block.Sorting.{All-sort_ips}
use localizer.Hostsfile.Layout.{
  chunks_marker, line_marker, IsPlain, Names, IsBlock, IsLawful, IsEntry,
}

-- Every entry of the map can be a line.
abbrev pub EntriesFit : Platform → Dict HostLine → Type 0
EntriesFit p hosts = All (λ ip. IsEntry p ip (addresses_of hosts ip)) (keys hosts)

abbrev Visible : Bytes → Type 0
Visible = All (λ c. b' ' ≤ c)

Visible-Lacks : (l : Bytes) → Visible l → Lacks b'\n' l
Visible-Lacks [] h = tt
Visible-Lacks (c ∷ l) h = (omega arith, Visible-Lacks l h.1)

Visible-NoFinalCr : (l : Bytes) → Visible l → NoFinalCr l
Visible-NoFinalCr [] h = tt
Visible-NoFinalCr (c ∷ []) h = omega arith
Visible-NoFinalCr (c ∷ d ∷ l) h = Visible-NoFinalCr (d ∷ l) h.1

Visible-IsLine : (l : Bytes) → Visible l → length l < max_token → IsLine l
Visible-IsLine l h short = record {
  one_line = Visible-Lacks l h;
  no_cr = Visible-NoFinalCr l h;
  short = short;
}

abbrev Word : Bytes → Type 0
Word = All (λ c. b' ' < c)

Word-Visible : (w : Bytes) → Word w → Visible w
Word-Visible [] h = tt
Word-Visible (c ∷ w) h = (omega arith, Word-Visible w h.1)

Word-Lacks : (w : Bytes) → Word w → Lacks b' ' w
Word-Lacks [] h = tt
Word-Lacks (c ∷ w) h = (omega arith, Word-Lacks w h.1)

join-Visible : (ws : List Bytes) → All Word ws → Visible (join ws b' ')
unfolding join
join-Visible [] h = tt
join-Visible (w ∷ []) h = Word-Visible w h.0
join-Visible (w ∷ v ∷ ws) h =
    All-append _ w _ (Word-Visible w h.0) (omega arith, join-Visible (v ∷ ws) h.1)

module _ (p : Platform) (name : Bytes) (law : IsLawful p name) where
  marker-ip : (ip b : Bytes) → p.parse_ip ip ≡ some b → marker ip ≡ plain
  unfolding marker
  marker-ip ip b h = ground (
    arith,
    str_eq_iff ip start_marker,
    str_eq_iff ip end_marker,
    law.hash_not_ip (codes "##start-hostfile"),
    law.hash_not_ip (codes "##end-hostfile"),
  )

  module _ (hosts : Dict HostLine) (ip : Bytes) (e : IsEntry p ip (addresses_of hosts ip)) where
    words-Lacks : (ws : List Bytes) → All Word ws → All (Lacks b' ') ws
    words-Lacks [] h = tt
    words-Lacks (w ∷ ws) h = (Word-Lacks w h.0, words-Lacks ws h.1)

    -- The chunks of an entry's line are the address and its hosts.
    pub split-host_line : split (host_line hosts ip) b' ' ≡ ip ∷ addresses_of hosts ip
    unfolding host_line
    split-host_line =
        split-append_sep b' ' ip (join (addresses_of hosts ip) b' ')
          (Word-Lacks ip (law.ip_text ip e.parsed e.parses))
        ∙ ap (◌∷◌ ip) (
            split-join b' ' (addresses_of hosts ip) e.some_host
              (words-Lacks (addresses_of hosts ip) e.words))

    host_line-IsPlain : IsPlain (host_line hosts ip)
    host_line-IsPlain = ap chunks_marker split-host_line ∙ marker-ip ip e.parsed e.parses

    host_line-IsLine : IsLine (host_line hosts ip)
    unfolding host_line
    host_line-IsLine =
        Visible-IsLine _
          (All-append _ ip _ (Word-Visible ip (law.ip_text ip e.parsed e.parses))
            (omega arith, join-Visible (addresses_of hosts ip) e.words))
          e.short

  entry_lines :
      (hosts : Dict HostLine) (ips : List Bytes)
      → All (λ ip. IsEntry p ip (addresses_of hosts ip)) ips
      → All IsPlain (map (host_line hosts) ips) × All IsLine (map (host_line hosts) ips)
  entry_lines hosts [] h = (tt, tt)
  entry_lines hosts (ip ∷ ips) h =
      let (plains, lines) = entry_lines hosts ips h.1 in
      ((host_line-IsPlain hosts ip h.0, plains), (host_line-IsLine hosts ip h.0, lines))

  start_line : IsLine start_marker
  start_line = record { one_line = omega arith; no_cr = omega arith; short = omega arith }

  end_line : IsLine end_marker
  end_line = record { one_line = omega arith; no_cr = omega arith; short = omega arith }

  start_opens : line_marker start_marker ≡ block_start
  unfolding marker split
  start_opens = refl

  end_closes : line_marker end_marker ≡ block_end
  unfolding marker split
  end_closes = refl

  module _ (now : ℕ) (j : Bytes)
      (json : p.to_json (record { block_name = name; last_modified = now }) ≡ ok j) where
    json_line : IsLine (hashes ++ j)
    json_line =
        Visible-IsLine (hashes ++ j)
          (All-append _ hashes j (omega arith) (law.json_printable now j json))
          (omega (arith, law.json_short now j json))

    json-Names : Names p (hashes ++ j) name
    unfolding parse_metadata
    json-Names =
        let (m, decoded, named) = law.decodes now j json in
        record { metadata = m; decoded = rw decoded; named = named }

    pub generated-IsBlock :
        (hosts : Dict HostLine)
        → EntriesFit p hosts
        → IsBlock p name start_marker
            (hashes ++ j)
            (map (host_line hosts) (sort_ips p (keys hosts)))
            end_marker
    generated-IsBlock hosts fit = record {
      opens = start_opens;
      names = json-Names;
      inside = (entry_lines hosts _ (All-sort_ips p _ (keys hosts) fit)).0;
      closes = end_closes;
    }

    -- The lines of the whole file, with the block's own.
    pub scanned_lines :
        (hosts : Dict HostLine) (pre post : List Bytes)
        → EntriesFit p hosts
        → All IsLine pre
        → All IsLine post
        → EndsFull (end_marker ∷ post)
        → let entries = map (host_line hosts) (sort_ips p (keys hosts)) in
          scan_lines (join (pre ++ (join (block_lines j entries) b'\n' ∷ post)) b'\n') ≡ record {
            lines = pre ++ (start_marker ∷ (hashes ++ j) ∷ (entries ++ (end_marker ∷ post)));
            too_long = false;
          }
    scanned_lines hosts pre post fit hpre hpost full =
        let entries = map (host_line hosts) (sort_ips p (keys hosts)) in
        let (_, lines) = entry_lines hosts _ (All-sort_ips p _ (keys hosts) fit) in
        let whole = pre ++ (start_marker ∷ (hashes ++ j) ∷ (entries ++ (end_marker ∷ post))) in
        ap scan_lines (
          join-splice b'\n' pre (block_lines j entries) post (λ e. cc)
          ∙ ap (λ t. join (pre ++ (start_marker ∷ (hashes ++ j) ∷ t)) b'\n')
              (append_assoc entries (end_marker ∷ []) post))
        ∙ scan_lines-join whole
            (All-append IsLine pre _ hpre
              (start_line, (json_line, All-append IsLine entries _ lines (end_line, hpost))))
            (EndsFull-append pre _
              (EndsFull-append (start_marker ∷ (hashes ++ j) ∷ entries) _ full))
