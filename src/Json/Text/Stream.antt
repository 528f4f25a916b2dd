-- ===== src/Json/Text/Stream.antt =====
-- str_json_stream: a json_stream over a compact writer (libsofadb/native_json.cpp, json_stream.h).
use sofa_db.Prelude.{Bool, List, [], ◌∷◌, ◌++◌}
use sofa_db.Prelude.Int.{ℤ}
use sofa_db.Text.{Bytes}
use sofa_db.Json.Value.{JsonValue}
use sofa_db.Json.Events.{WriteEvent, print}

-- The calls made of the writer so far.
abbrev pub JsonStream : Type 0
JsonStream = List WriteEvent

-- make_stream(append_to, false)
abbrev pub make_stream : JsonStream
make_stream = []

abbrev tell_writer : WriteEvent → JsonStream → JsonStream
tell_writer e s = s ++ (e ∷ [])

unfoldable pub write_null : JsonStream → JsonStream
write_null = tell_writer WriteEvent.null

unfoldable pub write_bool : Bool → JsonStream → JsonStream
write_bool b = tell_writer (WriteEvent.bool b)

unfoldable pub write_int : ℤ → JsonStream → JsonStream
write_int i = tell_writer (WriteEvent.int64 i)

unfoldable pub write_string : Bytes → JsonStream → JsonStream
write_string t = tell_writer (WriteEvent.string t)

unfoldable pub write_digits : Bytes → JsonStream → JsonStream
write_digits t = tell_writer (WriteEvent.big_int t)

unfoldable pub start_map : JsonStream → JsonStream
start_map = tell_writer WriteEvent.start_object

unfoldable pub end_map : JsonStream → JsonStream
end_map = tell_writer WriteEvent.end_object

unfoldable pub start_list : JsonStream → JsonStream
start_list = tell_writer WriteEvent.start_array

unfoldable pub end_list : JsonStream → JsonStream
end_list = tell_writer WriteEvent.end_array

-- write_json: a rapid_json_printer over the same writer.
unfoldable pub write_json : JsonValue → JsonStream → JsonStream
write_json v s = s ++ print v
