-- ===== src/Buffer.antt =====
-- src/buffer.c: the byte buffers of a stream. A null zend_string pointer is `none`; lengths are
-- plain numbers, since zend_string_extend aborts the request before a length wraps.
pub mod Pipe
use ext_ngtcp.Prelude.{
  ℕ, ◌+◌, ◌-◌, Bool, true, false, ◌||◌, Option, none, some, List, [], ◌∷◌, ◌++◌, Bytes, length,
  take, drop, ltb, ◌==◌, if◌then◌else◌,
}

-- The bytes of a buffer; a null buffer has none.
unfoldable pub contents : Option Bytes → Bytes
contents none = []
contents (some bytes) = bytes

unfoldable pub append : Option Bytes → Bytes → Option Bytes
unfolding contents
append buffer bytes = if length bytes == 0 then buffer else some (contents buffer ++ bytes)

-- memmove (p, p + offset, n) on the bytes at p.
abbrev pub memmove : Bytes → ℕ → ℕ → Bytes
memmove bytes offset n = take n (drop offset bytes) ++ drop n bytes

unfoldable pub read_bytes : Bytes → ℕ → Bytes × Option Bytes
read_bytes bytes max_len =
    let buffer_len = length bytes in
    let read_len = if ltb max_len buffer_len then max_len else buffer_len in
    let chunk = take read_len bytes in
    if read_len == buffer_len then (chunk, some []) else (
      chunk,
      some (take (buffer_len - read_len) (memmove bytes read_len (buffer_len - read_len))),
    )

-- The chunk that is returned, and the buffer that is left.
unfoldable pub read : Option Bytes → ℕ → Bytes × Option Bytes
unfolding read_bytes
read none max_len = ([], none)
read (some bytes) max_len =
    if length bytes == 0 || max_len == 0 then ([], some bytes) else read_bytes bytes max_len
