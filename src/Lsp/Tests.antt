-- ===== src/Lsp/Tests.antt =====
-- Columns, lines, words and paths.
use hphl.Base.{
  ℕ, Bool, true, Option, none, some, List, [], ◌∷◌, ◌++◌, ◌≡◌, refl, leb, length, arith,
}
use hphl.Base.Int.{pos}
use hphl.Json.{Bytes, JsonValue, null, int, string, same_bytes}
use hphl.Json.Number.{span_digits, number_of}
use hphl.Json.RoundTrip.{is_exact}
use hphl.Lsp.Frames.{
  ends_header, read_header, header_lines, lower_line, after_spaces, signed_value, content_length,
  read_frame, write_frame,
}
use hphl.Lsp.Streams.{read_frame-write_frame}
use hphl.Lsp.Server.{run}
use hphl.Lsp.Sessions.{all_exact, write_messages, handle_all, run-write_messages}
use hphl.Mir.{codes}
use hphl.Lsp.{to_byte, utf16_to_byte, to_units, byte_to_utf16, Characters, arrived, char}
use hphl.Lsp.Columns.{utf16_to_byte-byte_to_utf16}
use hphl.Lsp.Lines.{without_cr, line_at, char_at, word_start, word_end, Word, word_at}
use hphl.Lsp.Joined.{one_line, are_lines, join_lines, line_at-join_lines}
use hphl.Lsp.Words.{Found, word_at-Found}
use hphl.Lsp.Uri.{url_decode, without_prefix, exchange, uri_to_path, path_to_uri}
use hphl.Lsp.Paths.{is_plain_path, uri_to_path-path_to_uri}

-- An `a`, a character of two code units, and a `b`.
abbrev wide_line : Bytes
wide_line = 97 ∷ 240 ∷ 159 ∷ 152 ∷ 128 ∷ 98 ∷ []

wide_line-columns : byte_to_utf16 wide_line 5 ≡ 3
unfolding byte_to_utf16 to_units
wide_line-columns = refl

-- A character that the line cuts off is counted with all its bytes.
cut_line-columns : utf16_to_byte (240 ∷ []) 1 ≡ 4
unfolding utf16_to_byte to_byte
cut_line-columns = refl

wide_line-Characters : Characters wide_line 5 0
wide_line-Characters = char {c = 97} refl (char {c = 240} refl arrived)

utf16_to_byte-byte_to_utf16_example : utf16_to_byte wide_line (byte_to_utf16 wide_line 5) ≡ 5
utf16_to_byte-byte_to_utf16_example = utf16_to_byte-byte_to_utf16 wide_line 5 wide_line-Characters

line_at-join_lines_example :
    line_at (join_lines (codes "let x" ∷ codes "return" ∷ [])) 1 ≡ without_cr (codes "return")
unfolding are_lines one_line
line_at-join_lines_example =
    line_at-join_lines (codes "let x" ∷ codes "return" ∷ []) 1 (codes "return") refl refl

word_at-text :
    word_at (codes "let ab = 1") 5
    ≡ some (record { text = codes "ab"; byte_start = 4; byte_end = 6 })
unfolding word_at word_start word_end char_at
word_at-text = refl

-- A column two places behind the end is read behind the byte that ends the line.
word_at-behind : word_at (codes "ab") 4 ≡ none
unfolding word_at word_start char_at
word_at-behind = refl

word_at-Found_example :
    (w : Word) × (word_at (codes "let ab = 1") 5 ≡ some w) × Found (codes "let ab = 1") 5 w
word_at-Found_example = word_at-Found (codes "let ab = 1") 5 (omega arith)

uri_to_path-path_to_uri_example :
    uri_to_path (path_to_uri true (codes "C:\\src\\a b.hp")) ≡ codes "C:\\src\\a b.hp"
unfolding is_plain_path
uri_to_path-path_to_uri_example = uri_to_path-path_to_uri 67 (codes "\\src\\a b.hp") refl refl

-- An escape is not written, but read: the path of `a%41` becomes that of `aA`.
escape_lost : uri_to_path (path_to_uri true (codes "C:\\a%41")) ≡ codes "C:\\aA"
unfolding uri_to_path path_to_uri url_decode without_prefix exchange
escape_lost = refl

-- A frame with another header line before its length, in small letters, and text behind it.
read_frame-lines :
    read_frame
      (codes "A: b" ++ 13 ∷ 10 ∷ codes "content-length: 2" ++ 13 ∷ 10 ∷ 13 ∷ 10 ∷ codes "{}x")
    ≡ (some (codes "{}"), codes "x")
unfolding read_frame read_header ends_header header_lines content_length lower_line same_bytes
    after_spaces signed_value span_digits number_of
read_frame-lines = refl

-- A body that the input cuts off.
read_frame-cut :
    read_frame (codes "Content-Length: 3" ++ 13 ∷ 10 ∷ 13 ∷ 10 ∷ codes "{}") ≡ (none, [])
unfolding read_frame read_header ends_header header_lines content_length lower_line same_bytes
    after_spaces signed_value span_digits number_of
read_frame-cut = refl

read_frame-write_frame_example :
    read_frame (write_frame (codes "{}") ++ codes "x") ≡ (some (codes "{}"), codes "x")
read_frame-write_frame_example = read_frame-write_frame (codes "{}") (codes "x")

abbrev no_print : ℕ → Bytes
no_print f = []

abbrev no_stod : Bytes → Option ℕ
no_stod s = none

abbrev keep_message : JsonValue → List JsonValue → List JsonValue
keep_message msg st = msg ∷ st

abbrev has_two : List JsonValue → Bool
has_two st = leb 2 (length st)

abbrev three_messages : List JsonValue
three_messages = int (pos 7) ∷ null ∷ string (codes "late") ∷ []

-- The message behind the one that asks for the end is not handled.
handle_all-three : handle_all keep_message has_two three_messages [] ≡ null ∷ int (pos 7) ∷ []
unfolding handle_all
handle_all-three = refl

run-write_messages_example :
    run no_stod keep_message has_two (write_messages no_print three_messages) []
    ≡ handle_all keep_message has_two three_messages []
unfolding all_exact is_exact
run-write_messages_example =
    run-write_messages keep_message has_two no_stod no_print three_messages [] refl
