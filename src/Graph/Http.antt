-- ===== src/Graph/Http.antt =====
-- `handle_connection` and `write_response` of rust/src/graph.rs, and the mutex around the state. The two pages, the JSON
-- encoder and the lossy decoding of UTF-8 are parameters.
use csyn.Common.{
  ℕ, List, [], ◌∷◌, ◌++◌, Bool, not, ◌&&◌, ◌||◌, leb, ◌==◌, Option, none, some, length,
  if◌then◌else◌,
}
use csyn.Common.Text.{Text, codes, list_eq, starts_with, split, to_string}
use csyn.Common.Bytes.{Bytes}
use csyn.Common.Result.{Result, ok, err, panic, ◌>>◌}
use csyn.Graph.State.{GraphState}
use csyn.Graph.Admin.{SerdeJson}
use csyn.Graph.Snapshot.{GraphSnapshot, snapshot}

-- `Mutex<GraphState>`: a panic of the thread that holds the lock poisons it.
pub data Shared : Type 0 where
  available : GraphState → Shared
  poisoned : Shared

-- `char::is_whitespace`
unfoldable pub is_whitespace : ℕ → Bool
is_whitespace c =
    leb 9 c && leb c 13
    || (c == 32
        || (c == 0x85
            || (c == 0xa0
                || (c == 0x1680
                    || (leb 0x2000 c && leb c 0x200a
                        || (c == 0x2028
                            || (c == 0x2029 || (c == 0x202f || (c == 0x205f || c == 0x3000)))))))))

-- `request.lines().next().unwrap_or("")`
unfoldable pub first_line : Text → Text
first_line [] = []
first_line (c ∷ s) = if c == 10 || starts_with (c ∷ s) (13 ∷ 10 ∷ []) then [] else c ∷ first_line s

-- `split_whitespace`: the text from the next word on, that word, and what is behind it.
unfoldable pub skip_space : Text → Text
skip_space [] = []
skip_space (c ∷ s) = if is_whitespace c then skip_space s else c ∷ s

unfoldable pub word : Text → Text
word [] = []
word (c ∷ s) = if is_whitespace c then [] else c ∷ word s

unfoldable pub behind_word : Text → Text
behind_word [] = []
behind_word (c ∷ s) = if is_whitespace c then c ∷ s else behind_word s

-- `parts.next().unwrap_or(default)`
unfoldable pub word_or : Text → Text → Text
word_or default [] = default
word_or default (c ∷ s) = word (c ∷ s)

abbrev pub first_or : Text → List Text → Text
first_or default [] = default
first_or default (part ∷ parts) = part

unfoldable pub method_of : Text → Text
method_of line = word_or [] (skip_space line)

unfoldable pub path_of : Text → Text
path_of line = word_or (codes "/") (skip_space (behind_word (skip_space line)))

-- `path.split('?').next().unwrap_or("/")`
unfoldable pub route_of : Text → Text
route_of path = first_or (codes "/") (split b'?' path)

pub record Response : Type 0 where
  pub status : Text
  pub content_type : Text
  pub body : Bytes

abbrev crlf : Text
crlf = 13 ∷ 10 ∷ []

unfoldable pub header_of : Response → Text
header_of r =
    codes "HTTP/1.1 "
    ++ (r.status
        ++ (crlf
            ++ (codes "Content-Type: "
                ++ (r.content_type
                    ++ (crlf
                        ++ (codes "Content-Length: "
                            ++ (to_string (length r.body)
                                ++ (crlf
                                    ++ (codes "Cache-Control: no-store"
                                        ++ (crlf
                                            ++ (codes "Connection: close"
                                                ++ (crlf ++ crlf))))))))))))

-- `write_response`, the bytes that it writes; the header is ASCII.
unfoldable pub write_response : Response → Bytes
write_response r = header_of r ++ r.body

-- What the server is built with.
pub record Pages : Type 0 where
  pub html : Bytes
  pub js : Bytes
  pub from_utf8_lossy : Bytes → Text
  pub to_vec : GraphSnapshot → Result Bytes

abbrev pub plain_text : Text
plain_text = codes "text/plain; charset=utf-8"

abbrev pub ok_status : Text
ok_status = codes "200 OK"

module _ {Value Map : Type 0} (json : SerdeJson Value Map) (pages : Pages) where
  -- The answer to "/api/graph", and the lock behind it.
  abbrev encoded : Result Bytes → Result (Option Response)
  encoded (ok body) =
      ok
        (some (record { status = ok_status; content_type = codes "application/json"; body = body }))
  encoded (err e) = err e
  encoded panic = panic

  unfoldable pub graph_response : Shared → ℕ → Result (Option Response) × Shared
  graph_response poisoned now = (panic, poisoned)
  graph_response (available s) now = elim (snapshot json s now) [
    | ok snap ↦ (encoded (pages.to_vec snap), available s)
    | err e ↦ (err e, available s)
    | panic ↦ (panic, poisoned)
  ]

  -- A request for the route that was asked for.
  unfoldable pub respond : Text → Text → Shared → ℕ → Result (Option Response) × Shared
  respond method path shared now =
      let route = route_of path in
      if not (list_eq method (codes "GET"))
      then (
        ok (
            some (record {
              status = codes "405 Method Not Allowed";
              content_type = plain_text;
              body = codes "method not allowed";
            })),
        shared,
      )
      else if list_eq route (codes "/")
      then (
        ok (
            some (record {
              status = ok_status;
              content_type = codes "text/html; charset=utf-8";
              body = pages.html;
            })),
        shared,
      )
      else if list_eq route (codes "/app.js")
      then (
        ok (
            some (record {
              status = ok_status;
              content_type = codes "application/javascript; charset=utf-8";
              body = pages.js;
            })),
        shared,
      )
      else if list_eq route (codes "/api/graph")
      then graph_response shared now
      else (
        ok (
            some (record {
              status = codes "404 Not Found";
              content_type = plain_text;
              body = codes "not found";
            })),
        shared,
      )

  -- What `handle_connection` does with what one read of up to 4096 bytes gives: the response, if there is one, that is to be
  -- written.
  unfoldable pub response_to : Result Bytes → Shared → ℕ → Result (Option Response) × Shared
  response_to (err e) shared now = (err e, shared)
  response_to panic shared now = (panic, shared)
  response_to (ok []) shared now = (ok none, shared)
  response_to (ok (byte ∷ bytes)) shared now =
      let line = first_line (pages.from_utf8_lossy (byte ∷ bytes)) in
      respond (method_of line) (path_of line) shared now

  -- The response is written to the stream, where that gives `written`.
  abbrev pub written_out :
      Result (Option Response) → (written : Result (Unit {0})) → Result (Option Bytes)
  written_out (ok none) written = ok none
  written_out (ok (some response)) written = do written; ok (some (write_response response))
  written_out (err e) written = err e
  written_out panic written = panic

  -- `handle_connection`: the bytes that are written, if all of them are, and the lock behind it.
  abbrev pub handle_connection :
      (read : Result Bytes)
      → (written : Result (Unit {0})) → Shared
      → ℕ
      → Result (Option Bytes) × Shared
  handle_connection read written shared now =
      (written_out (response_to read shared now).0 written, (response_to read shared now).1)
