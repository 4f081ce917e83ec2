-- ===== src/Cli.antt =====
-- cmd/localizer: the commands `localizer list` and `localizer expose`, and the start of the daemon.
pub mod Listing
pub mod Asking
pub mod Start
use localizer.Base.{
  ℕ, ◌-◌, Bool, true, false, ◌&&◌, List, [], ◌∷◌, ◌++◌, map, Option, none, some, Bytes, codes,
  str_eq, split, join, ltb, leb, if◌then◌else◌, Result, ok, err, panic, blocked, wrap, ◌>>=◌,
}
use localizer.Hostsfile.Block.{bytes_less}
use localizer.Server.{ListService}
use localizer.Daemon.{SocketFile, is_running}

abbrev not_running : Bytes
not_running = codes "localizer daemon not running (run localizer by itself?)"

-- list.go

-- `sort.Slice`, by a test of whether the first comes before the second. Equal ones may change places.
abbrev pub SortSlice : Type 0
SortSlice = (ListService → ListService → Bool) → List ListService → List ListService

abbrev pub by_namespace : ListService → ListService → Bool
by_namespace a b = bytes_less a.namespace b.namespace

abbrev pub by_name : ListService → ListService → Bool
by_name a b = bytes_less a.name b.name

-- `strings.ToUpper` of one byte: a byte that is no character by itself becomes U+FFFD.
unfoldable pub to_upper : ℕ → Bytes
to_upper c =
    if leb 128 c
    then 239 ∷ 191 ∷ 189 ∷ []
    else if leb b'a' c && leb c b'z'
    then (c - 32) ∷ []
    else c ∷ []

-- A slice of an empty text is out of range.
unfoldable pub capital : Bytes → Result Bytes
unfolding to_upper
capital [] = panic
capital (c ∷ cs) = ok (to_upper c ++ cs)

abbrev pub ip_text : Bytes → Bytes
ip_text [] = codes "None"
ip_text (c ∷ cs) = c ∷ cs

-- The cells of a line, with a tab between and a newline behind.
abbrev pub cells : List Bytes → Bytes
cells cs = join cs 9 ++ (10 ∷ [])

unfoldable pub header : Bytes
unfolding join
header = cells (
    codes "NAMESPACE"
    ∷ codes "NAME"
    ∷ codes "STATUS"
    ∷ codes "REASON"
    ∷ codes "ENDPOINT"
    ∷ codes "IP ADDRESS"
    ∷ codes "PORT(S)"
    ∷ []
    ∷ [])

unfoldable pub list_line : ListService → Result Bytes
unfolding capital join
list_line s = capital s.status >>= λ status. ok (
    cells (
      s.namespace
      ∷ s.name
      ∷ status
      ∷ s.status_reason
      ∷ s.endpoint
      ∷ ip_text s.ip
      ∷ join s.ports b','
      ∷ []))

unfoldable pub list_lines : List ListService → Result (List Bytes)
unfolding list_line
list_lines [] = ok []
list_lines (s ∷ ss) = list_line s >>= λ l. list_lines ss >>= λ ls. ok (l ∷ ls)

-- The lines that are written for what the daemon answers: `connected` is the dial.
unfoldable pub list_command :
    SortSlice → SocketFile → Result (Unit {0}) → Result (List ListService) → Result (List Bytes)
unfolding is_running header list_lines
list_command sort file connected answer =
    if is_running file
    then (wrap (codes "failed to connect to localizer daemon") connected >>= λ _.
        answer >>= λ services.
        list_lines (sort by_name (sort by_namespace services)) >>= λ lines. ok (header ∷ lines))
    else err not_running

-- expose.go

-- `api.ExposeServiceRequest` and `api.StopExposeRequest`
pub data Asked : Type 0 where
  expose_service : List Bytes → Bytes → Bytes → Asked
  stop_expose : Bytes → Bytes → Asked

-- The argument `namespace/service`
unfoldable pub parse_service : Bytes → Result (Bytes × Bytes)
unfolding split
parse_service arg = elim (split arg b'/') [
  | namespace ∷ name ∷ [] ↦ ok (namespace, name)
  | _ ↦ err (codes "invalid service, expected namespace/name")
]

abbrev pub asked : Bool → List Bytes → Bytes → Bytes → Asked
asked true port_map namespace name = stop_expose namespace name
asked false port_map namespace name = expose_service port_map namespace name

-- `api.ConsoleLevel`; a level of a later version has a number only.
pub data Level : Type 0 where
  unspecified info warn error : Level
  other : ℕ → Level

pub data Severity : Type 0 where
  info warn error : Severity

unfoldable pub severity : Level → Severity
severity Level.warn = Severity.warn
severity Level.error = Severity.error
severity Level.unspecified = Severity.info
severity Level.info = Severity.info
severity (other n) = Severity.info

-- What `stream.Recv` gives; behind the last of them the deadline of the context passes.
pub data Received : Type 0 where
  message : Level → Bytes → Received
  eof : Received
  failed : Bytes → Received

unfoldable pub receive_all :
    List Received → List (Severity × Bytes) → List (Severity × Bytes) × Result (Unit {0})
unfolding severity
receive_all [] log = (log, err (codes "context deadline exceeded"))
receive_all (eof ∷ _) log = (log, ok tt)
receive_all (failed e ∷ _) log = (log, err e)
receive_all (message level text ∷ rest) log =
    receive_all rest (log ++ ((severity level, text) ∷ []))

-- What the command asked the daemon for, what it logged, and how it came back; `opened` is the call
-- that gives the stream.
pub record Exposing : Type 0 where
  pub request : Option Asked
  pub log : List (Severity × Bytes)
  pub result : Result (Unit {0})

abbrev refused : Result (Unit {0}) → Exposing
refused r = record { request = none; log = []; result = r }

unfoldable pub expose_command :
    Bytes
    → Bool
    → List Bytes
    → SocketFile
    → Result (Unit {0})
    → Result (Unit {0})
    → List Received
    → Exposing
unfolding parse_service is_running receive_all
expose_command arg stop port_map file connected opened stream = elim (parse_service arg) [
  | ok (namespace, name) ↦
      if is_running file
      then elim (wrap (codes "failed to connect to localizer daemon") connected) [
        | ok _ ↦
            let (log, result) = receive_all stream [] in
            record {
              request = some (asked stop port_map namespace name);
              log = elim opened [ ok _ ↦ log | _ ↦ [] ];
              result = opened >>= λ _. result;
            }
        | r ↦ refused r
      ]
      else refused (err not_running)
  | err e ↦ refused (err e)
  | panic ↦ refused panic
  | blocked ↦ refused blocked
]
