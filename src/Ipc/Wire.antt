-- ===== src/Ipc/Wire.antt =====
-- Frames that are written to the pipe (python/tom/ipc/transport.py) and read from it.
use tom.Prelude.{
  ℕ, zero, suc, ◌+◌, ◌*◌, ◌≤◌, ◌≡◌, refl, sym, ap, ◌∙◌, true, false, some, List, [], ◌∷◌, ◌++◌,
  length, length-append, ltb, arith, map, All,
}
use mathlib.Core.List.{append-nil, append_assoc}
use tom.Ipc.Frames.{
  Bytes, newline, rstrip, strip_cons, HasNoNewline, split_line-append, rstrip-line,
}
use tom.Ipc.Transport.{
  max_frame_bytes, NamedPipeTransport, is_connected, write_frame, Write, sent, Peer, eof, silent,
  broken, complete, readline, from_split, from_line, Read, frame_read, read_frame,
}

-- A frame that the transport takes, and that is one line.
abbrev pub IsFrame : Bytes → Type 0
IsFrame f = HasNoNewline (rstrip f) × (length f ≤ max_frame_bytes)

-- The frames are written one after another, and none breaks the pipe.
unfoldable pub write_all : List Bytes → NamedPipeTransport → NamedPipeTransport × List Write
write_all [] t = (t, [])
write_all (f ∷ fs) t =
    let (t', w) = write_frame false f t in let (t'', ws) = write_all fs t' in (t'', w ∷ ws)

unfoldable pub read_all : Peer → ℕ → NamedPipeTransport → NamedPipeTransport × List Read
read_all peer zero t = (t, [])
read_all peer (suc n) t =
    let (t', r) = read_frame peer t in let (t'', rs) = read_all peer n t' in (t'', r ∷ rs)

-- The bytes of frames on the wire.
abbrev wire : List Bytes → Bytes
wire [] = []
wire (f ∷ fs) = rstrip f ++ newline ∷ wire fs

length-strip_cons : (c : ℕ) (cs : Bytes) → length (strip_cons c cs) ≤ suc (length cs)
unfolding strip_cons
length-strip_cons c [] = ground arith
length-strip_cons c (d ∷ ds) = omega arith

length-rstrip : (cs : Bytes) → length (rstrip cs) ≤ length cs
unfolding rstrip
length-rstrip [] = omega arith
length-rstrip (c ∷ cs) = omega (arith, length-strip_cons c (rstrip cs), length-rstrip cs)

write_frame-sent :
    (f : Bytes) (t : NamedPipeTransport)
    → is_connected t ≡ true
    → length f ≤ max_frame_bytes
    → write_frame false f t ≡ (record t { written = t.written ++ (rstrip f ++ newline ∷ []) }, sent)
unfolding write_frame is_connected
write_frame-sent f t c h =
    let n = length-append (rstrip f) (newline ∷ []) in
    let a : ltb max_frame_bytes (length f) ≡ false = ground arith in
    let b : ltb (max_frame_bytes + 1) (length (rstrip f ++ newline ∷ [])) ≡ false =
      ground (arith, n, length-rstrip f) in
    rw (c, a, b) refl

-- A line that fits is read as a frame.
from_line-frame :
    (f rest : Bytes) (t : NamedPipeTransport)
    → length f ≤ max_frame_bytes
    → from_line (complete (rstrip f) rest) t ≡ (record t { arriving = rest }, frame_read (rstrip f))
unfolding from_line
from_line-frame f rest t h =
    let n = length-append (rstrip f) (newline ∷ []) in
    let a : ltb max_frame_bytes (length (rstrip f)) ≡ false = ground (arith, length-rstrip f) in
    let b : ltb (max_frame_bytes + 1) (length (rstrip f ++ newline ∷ [])) ≡ false =
      ground (arith, n, length-rstrip f) in
    rw (rstrip-line f, a, b) refl

from_split-line :
    (peer : Peer) (arriving f rest : Bytes)
    → length f ≤ max_frame_bytes
    → from_split peer arriving (some (rstrip f, rest)) ≡ complete (rstrip f) rest
unfolding from_split
from_split-line peer arriving f rest h =
    let a : ltb (max_frame_bytes * 2) (length (rstrip f)) ≡ false =
      ground (arith, length-rstrip f) in
    rw a refl

abbrev pub IsAlive : Peer → Type 0
IsAlive broken = ⊥
IsAlive _ = Unit

readline-line :
    (peer : Peer) (f rest : Bytes)
    → IsAlive peer
    → IsFrame f
    → readline peer (rstrip f ++ newline ∷ rest) ≡ complete (rstrip f) rest
unfolding readline
readline-line eof f rest p h =
    rw (split_line-append (rstrip f) rest h.0)
      (from_split-line eof (rstrip f ++ newline ∷ rest) f rest h.1)
readline-line silent f rest p h =
    rw (split_line-append (rstrip f) rest h.0)
      (from_split-line silent (rstrip f ++ newline ∷ rest) f rest h.1)
readline-line broken f rest p h = absurd p

read_frame-line :
    (peer : Peer) (f rest : Bytes) (t : NamedPipeTransport)
    → is_connected t ≡ true
    → IsAlive peer
    → IsFrame f
    → t.arriving ≡ rstrip f ++ newline ∷ rest
    → read_frame peer t ≡ (record t { arriving = rest }, frame_read (rstrip f))
unfolding read_frame is_connected
read_frame-line peer f rest t c p h e =
    rw (c, ap (readline peer) e ∙ readline-line peer f rest p h) (from_line-frame f rest t h.1)

read_all-wire :
    (peer : Peer) (fs : List Bytes) (t : NamedPipeTransport)
    → is_connected t ≡ true
    → IsAlive peer
    → All IsFrame fs
    → t.arriving ≡ wire fs
    → (read_all peer (length fs) t).1 ≡ map (λ f. frame_read (rstrip f)) fs
unfolding read_all is_connected
read_all-wire peer [] t c p h e = refl
read_all-wire peer (f ∷ fs) t c p h e = rw (read_frame-line peer f (wire fs) t c p h.0 e) (
    ap (λ rs. frame_read (rstrip f) ∷ rs)
      (read_all-wire peer fs (record t { arriving = wire fs }) c p h.1 refl))

write_all-wire :
    (fs : List Bytes) (t : NamedPipeTransport)
    → is_connected t ≡ true
    → All IsFrame fs
    → (write_all fs t).0.written ≡ t.written ++ wire fs
unfolding write_all is_connected
write_all-wire [] t c h = sym (append-nil t.written)
write_all-wire (f ∷ fs) t c h = rw (write_frame-sent f t c h.0.1) (
    write_all-wire fs (record t { written = t.written ++ (rstrip f ++ newline ∷ []) }) c h.1
    ∙ append_assoc t.written (rstrip f ++ newline ∷ []) (wire fs)
    ∙ ap (λ b. t.written ++ b) (append_assoc (rstrip f) (newline ∷ []) (wire fs)))

-- Frames that are one line each and not too large, written one after another, are read back in
-- their order by a connected transport that gets the bytes, each without its trailing line ends,
-- unless the stream breaks.
pub frames_read_back :
    (peer : Peer) (fs : List Bytes) (writer reader : NamedPipeTransport)
    → is_connected writer ≡ true
    → is_connected reader ≡ true
    → IsAlive peer
    → All IsFrame fs
    → writer.written ≡ []
    → reader.arriving ≡ (write_all fs writer).0.written
    → (read_all peer (length fs) reader).1 ≡ map (λ f. frame_read (rstrip f)) fs
frames_read_back peer fs writer reader cw cr p h w e =
    read_all-wire peer fs reader cr p h
      (e ∙ write_all-wire fs writer cw h ∙ ap (λ b. b ++ wire fs) w)
