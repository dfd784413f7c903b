-- ===== src/Buffer/Fifo.antt =====
-- As long as the counters do not wrap, the reader gets what was written, in order.
use soper.Common.{
  ℕ, ◌+◌, ◌%◌, ◌≡◌, ◌≢◌, ◌≤◌, ◌<◌, List, [], ◌∷◌, ◌++◌, Option, some, length, length-append, arith,
  refl, take-append_left, map-take-snoc, take, get_elem?, get_elem?-set_self, get_elem?-set_ne,
  get_elem?-append_left, get_elem?-append_last, dec_lt, length-set, ap, ◌∙◌, map, sym,
}
use native.Mathlib.Numerals.{add-one}
use native.Mathlib.Nat.{mod-eq_of_lt}
use soper.Buffer.{
  write, read, Ring, Writer, Reader, State, start, Step, Reach, begin, next, write_block,
  read_block,
}
use soper.Buffer.Tokens.{unread-le, Counts, Reach-Counts}

mod-ne : (len k w : ℕ) → k < w → w < k + len → k % len ≢ w % len
mod-ne len k w h b e = grind arith

-- How the ring holds what has been written and not yet read.
pub record Window {ℓ} {A : Type ℓ} (len modulus : ℕ) (r : Ring A) (sent : List A) (n : ℕ)
    : Type ℓ where
  pub fits : length r.blocks ≡ len
  pub reads : r.reading ≡ n % modulus
  pub writes : r.writing ≡ length sent % modulus
  pub held : (k : ℕ) → n ≤ k → k < length sent → get_elem? r.blocks (k % len) ≡ get_elem? sent k

module _ {ℓ} {A : Type ℓ} {len modulus : ℕ} (pos : 0 < len) where
  pub write-Window :
      (msg : A) (r : Ring A) (sent : List A) (n : ℕ)
      → length sent < modulus
      → n ≤ length sent
      → length sent < n + len
      → Window len modulus r sent n
      → Window len modulus (write len modulus msg r) (sent ++ (msg ∷ [])) n
  unfolding write
  write-Window msg r sent n small le room w = record {
    fits = length-set r.blocks (r.writing % len) msg ∙ w.fits;
    reads = w.reads;
    writes = rw (here, length-append);
    held = λ k lo hi. elim (dec_lt k (length sent)) [
      | yes old ↦ rw here (
          get_elem?-set_ne r.blocks (length sent % len) (k % len) msg
            (λ e. mod-ne len k (length sent) old (omega arith) (sym e))
          ∙ w.held k lo old
          ∙ sym (get_elem?-append_left sent (msg ∷ []) k old))
      | no new ↦
          let e : k ≡ length sent = omega (arith, length-append sent (msg ∷ [])) in
          rw (here, e)
            (get_elem?-set_self r.blocks (length sent % len) msg (omega (arith, w.fits))
              ∙ sym (get_elem?-append_last sent msg))
    ];
  }
    where
      here : r.writing ≡ length sent
      here = w.writes ∙ mod-eq_of_lt small

  pub read-Window :
      (r : Ring A) (sent : List A) (n : ℕ)
      → n < length sent
      → length sent ≤ modulus
      → Window len modulus r sent n
      → ((read len modulus r).0 ≡ get_elem? sent n)
        × Window len modulus (read len modulus r).1 sent (n + 1)
  unfolding read
  read-Window r sent n lt small w = (
    rw here (w.held n (omega arith) lt),
    record {
      fits = w.fits;
      reads = rw here;
      writes = w.writes;
      held = λ k lo hi. w.held k (omega arith) hi;
    },
  )
    where
      here : r.reading ≡ n
      here = w.reads ∙ mod-eq_of_lt (omega arith)

-- What has been read is what was written first, and the ring holds the rest.
pub record Fifo {ℓ} {A : Type ℓ} (len modulus : ℕ) (r : Ring A) (sent : List A)
    (got : List (Option A)) : Type ℓ where
  pub window : Window len modulus r sent (length got)
  pub behind : length got ≤ length sent
  pub order : got ≡ map some (take (length got) sent)

module _ {ℓ} {A : Type ℓ} {len : ℕ} where
  -- Before a write some slot is free, and before a read some slot is filled.
  room_to_write :
      {s : State A} {msg : A}
      → Counts len s
      → s.writer ≡ Writer.writing msg
      → length s.sent < length s.got + len
  room_to_write {s} c w = ground (arith, unread-le s.reader)

  ready_to_read :
      {s : State A} → Counts len s → s.reader ≡ Reader.reading → length s.got < length s.sent
  ready_to_read {s} c w = ground arith

module _ {ℓ} {A : Type ℓ} {len modulus : ℕ} (pos : 0 < len) where
  read-Fifo :
      (s : State A)
      → Fifo len modulus s.ring s.sent s.got
      → length s.got < length s.sent
      → length s.sent ≤ modulus
      → let (msg, r) = read len modulus s.ring in Fifo len modulus r s.sent (s.got ++ (msg ∷ []))
  read-Fifo s f lt small =
      let w = read-Window pos s.ring s.sent (length s.got) lt small f.window in
      let e = length-append s.got ((read len modulus s.ring).0 ∷ []) in
      record {
        window = rw e w.1;
        behind = omega (arith, e);
        order =
            rw (e, w.0, add-one)
              (ap (λ l. l ++ (get_elem? s.sent (length s.got) ∷ [])) f.order
                ∙ map-take-snoc (length s.got) s.sent lt);
      }

  Step-Fifo :
      {s t : State A}
      → Step len modulus s t
      → Counts len s
      → length t.sent ≤ modulus
      → Fifo len modulus s.ring s.sent s.got
      → Fifo len modulus t.ring t.sent t.got
  Step-Fifo {s} (write_block msg w) c small f = record {
    window =
        write-Window pos msg s.ring s.sent (length s.got)
          (omega (arith, length-append s.sent (msg ∷ []))) f.behind (room_to_write c w) f.window;
    behind = omega (arith, length-append s.sent (msg ∷ []), f.behind);
    order =
        f.order ∙ ap (map some) (sym (take-append_left (length s.got) s.sent (msg ∷ []) f.behind));
  }
  Step-Fifo {s} (read_block w) c small f = read-Fifo s f (ready_to_read c w) small
  Step-Fifo _ c small f = f

  sent_grows : {s t : State A} → Step len modulus s t → length s.sent ≤ length t.sent
  sent_grows {s} (write_block msg w) = omega (arith, length-append s.sent (msg ∷ []))
  sent_grows _ = omega arith

  start-Fifo :
      (blocks : List A)
      → length blocks ≡ len
      → Fifo len modulus (start len modulus blocks).ring [] []
  start-Fifo blocks e = record {
    window = record {
      fits = e;
      reads = omega arith;
      writes = omega arith;
      held = λ k lo hi. absurd (omega arith);
    };
    behind = omega arith;
    order = refl;
  }

  pub Reach-Fifo :
      {blocks : List A} {s : State A}
      → Reach len modulus blocks s
      → length blocks ≡ len
      → length s.sent ≤ modulus
      → Fifo len modulus s.ring s.sent s.got
  Reach-Fifo {blocks} begin e small = start-Fifo blocks e
  Reach-Fifo (next r st) e small =
      Step-Fifo st (Reach-Counts r) small (Reach-Fifo r e (omega (arith, sent_grows st)))

  -- Nothing is lost, repeated or put out of order: as long as no more blocks have been written than
  -- the counters count, what has been read is, in order, what was written first.
  pub read_in_order :
      {blocks : List A} {s : State A}
      → Reach len modulus blocks s
      → length blocks ≡ len
      → length s.sent ≤ modulus
      → (length s.got ≤ length s.sent) × (s.got ≡ map some (take (length s.got) s.sent))
  read_in_order r e small = let f = Reach-Fifo r e small in (f.behind, f.order)
