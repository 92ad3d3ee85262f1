-- ===== src/MarkRing/Pushed.antt =====
-- What `do_set_mark` (marks.c) pushes to the ring of marks.
use jove.Base.{
  ℕ, zero, suc, ◌+◌, ◌-◌, ◌%◌, ◌<◌, ◌≡◌, ◌≢◌, inl, inr, refl, sym, subst, ap, ap₂, ◌∙◌, arith,
  ==_refl, List, ◌∷◌, Option, none, some, false, take, min, le_or_lt, take-length,
}
use native.Mathlib.Decide.{ℕ_discrete}
use jove.Buffer.{LinePtr, Mark}
use jove.Marks.{mark_set, make_mark}
use jove.KillRing.{Ring, put_slot, shift_up}
use jove.KillRing.Slots.{put_slot-here, put_slot-other, shift_up-inside, shift_up-outside, span}
use jove.KillRing.Pushed as Pushing
use jove.KillRing.Recent.{recent, length-recent}
use jove.MarkRing.{nmarks, Marked, find_mark, at_mark, next_slot, fill_slot, do_set_mark}
use jove.MarkRing.Places.{
  Place, place_of, spot, places, IsMarkRing, spot_new, find_mark-at_mark, at_mark-other,
  recent_equal,
}

abbrev pub Pushed : LinePtr → ℕ → ℕ → Marked → ℕ → Type 0
Pushed l c k s m =
    recent (places (do_set_mark l c k s)) (min (suc m) nmarks)
    ≡ take nmarks (some (l, c) ∷ recent (places s) m)

fill-empty :
    (l c k : ℕ) (t : Marked)
    → t.slots t.the_mark ≡ none
    → fill_slot l c k t
      ≡ record t { buffer = make_mark k l c t.buffer; slots = put_slot t.slots t.the_mark (some k) }
unfolding fill_slot
fill-empty l c k t e = rw (fill_slot, e) refl

fill-used :
    (l c k j : ℕ) (t : Marked)
    → t.slots t.the_mark ≡ some j
    → fill_slot l c k t
      ≡ record t { buffer = record t.buffer { marks = at_mark j (mark_set l c) t.buffer.marks } }
unfolding fill_slot
fill-used l c k j t e = rw (fill_slot, e) refl

next-stays : (s : Marked) → s.slots s.the_mark ≡ none → next_slot s ≡ s
unfolding next_slot
next-stays s e = rw (next_slot, e) refl

next-spaced :
    (s : Marked) (i : ℕ)
    → s.slots s.the_mark ≡ some i
    → s.slots (nmarks - 1) ≡ none
    → s.the_mark < nmarks - 1
    → next_slot s ≡ record s {
      slots =
          put_slot
            (shift_up (nmarks - 1 - suc s.the_mark) (nmarks - 1) s.slots)
            (suc s.the_mark)
            none;
      the_mark = suc s.the_mark;
    }
unfolding next_slot
next-spaced s i e last h =
    let turn : (s.the_mark + 1) % nmarks ≡ suc s.the_mark = omega arith in
    rw (next_slot, e, last, turn) refl

next-turned :
    (s : Marked) (i j : ℕ)
    → s.slots s.the_mark ≡ some i
    → s.slots (nmarks - 1) ≡ some j
    → next_slot s ≡ record s { the_mark = (s.the_mark + 1) % nmarks }
unfolding next_slot
next-turned s i j e last = rw (next_slot, e, last) refl

several : 1 < nmarks
several = omega arith

module _ (l c k : ℕ) (s : Marked) (fresh : find_mark k s.buffer.marks ≡ none) where
  abbrev pub new_mark : Mark
  new_mark = record { id = k; line = l; char = c; big_delete = false }

  -- The chain of the marks with the new one.
  abbrev pub chain : List Mark
  chain = new_mark ∷ s.buffer.marks

  pub spot-here : spot chain (some k) ≡ some (l, c)
  unfolding find_mark
  spot-here = rw (==_refl k) refl

  spot-kept :
      (m : ℕ)
      → IsMarkRing s m
      → (j : ℕ) → j < m
      → spot chain (s.slots j) ≡ spot s.buffer.marks (s.slots j)
  spot-kept m v j lt =
      let (i, y, e, h) = v.in_use j lt in rw e (spot_new s.buffer.marks new_mark i y fresh h)

  -- The slots where there is a free one behind the current mark's.
  abbrev pub shifted : ℕ → Option ℕ
  shifted = shift_up (nmarks - 1 - suc s.the_mark) (nmarks - 1) s.slots

  pub set-first :
      IsMarkRing s 0
      → do_set_mark l c k s ≡ record s {
        buffer = record s.buffer { marks = chain };
        slots = put_slot s.slots s.the_mark (some k);
      }
  unfolding do_set_mark make_mark
  set-first v =
      let e : s.slots s.the_mark ≡ none =
        v.free s.the_mark (omega arith) (omega (arith, v.at_entry)) in
      ap (fill_slot l c k) (next-stays s e) ∙ fill-empty l c k s e

  pub set-spaced :
      (m : ℕ)
      → IsMarkRing s (suc m)
      → suc m < nmarks
      → do_set_mark l c k s ≡ record s {
        buffer = record s.buffer { marks = chain };
        slots = put_slot (put_slot shifted (suc s.the_mark) none) (suc s.the_mark) (some k);
        the_mark = suc s.the_mark;
      }
  unfolding do_set_mark make_mark
  set-spaced m v h =
      let (i, y, e, f) = v.in_use s.the_mark (omega (arith, v.at_entry)) in
      let last : s.slots (nmarks - 1) ≡ none = v.free (nmarks - 1) (omega arith) (omega arith) in
      ap (fill_slot l c k) (next-spaced s i e last (omega (arith, v.at_entry)))
      ∙ fill-empty l c k _ (put_slot-here shifted (suc s.the_mark) (suc s.the_mark) none refl)

  pub set-turned :
      IsMarkRing s nmarks
      → (j : ℕ) → s.slots ((s.the_mark + 1) % nmarks) ≡ some j
      → do_set_mark l c k s ≡ record s {
        buffer = record s.buffer { marks = at_mark j (mark_set l c) s.buffer.marks };
        the_mark = (s.the_mark + 1) % nmarks;
      }
  unfolding do_set_mark
  set-turned v j h =
      let (i, y, e, f) = v.in_use s.the_mark (omega (arith, v.at_entry)) in
      let (i', y', e', f') = v.in_use (nmarks - 1) (omega arith) in
      ap (fill_slot l c k) (next-turned s i i' e e') ∙ fill-used l c k j _ h

  -- What the slots of the ring then point to, by the slots they had before.
  module _ (m : ℕ) (v : IsMarkRing s (suc m)) (h : suc m < nmarks) where
    abbrev pub after : ℕ → Option ℕ
    after = put_slot (put_slot shifted (suc s.the_mark) none) (suc s.the_mark) (some k)

    pub after-other : (j : ℕ) → j ≢ suc s.the_mark → after j ≡ shifted j
    after-other j ne =
        put_slot-other (put_slot shifted (suc s.the_mark) none) (suc s.the_mark) j (some k) ne
        ∙ put_slot-other shifted (suc s.the_mark) j none ne

    abbrev pushed : Ring Place
    pushed = Pushing.spaced nmarks several (l, c) (places s)

    spot-after : (j : ℕ) → j < suc (suc m) → spot chain (after j) ≡ pushed.slots j
    spot-after j lt = elim (ℕ_discrete j (suc s.the_mark)) [
      | yes e ↦
          ap (spot chain)
            (put_slot-here (put_slot shifted (suc s.the_mark) none) (suc s.the_mark) j (some k) e)
          ∙ spot-here
          ∙ sym (
              put_slot-here (shift_up (nmarks - 1 - suc s.the_mark) (nmarks - 1) (places s).slots)
                (suc s.the_mark) j (some (l, c)) e)
      | no ne ↦ elim (le_or_lt j s.the_mark) [
        | inl low ↦
            ap (spot chain) (
              after-other j ne
              ∙ shift_up-outside (nmarks - 1 - suc s.the_mark) (nmarks - 1) s.slots j (omega arith)
                  (omega (arith, v.at_entry)))
            ∙ spot-kept (suc m) v j (omega (arith, v.at_entry))
            ∙ sym (
                Pushing.spaced-low nmarks several (l, c) (places s) j low
                  (omega (arith, v.at_entry)))
        | inr high ↦
            ap (spot chain) (
              after-other j ne
              ∙ shift_up-inside (nmarks - 1 - suc s.the_mark) (nmarks - 1) s.slots j (omega arith)
                  (omega arith) (omega arith))
            ∙ spot-kept (suc m) v (j - 1) (omega arith)
            ∙ sym
                (Pushing.spaced-high nmarks several (l, c) (places s) j (omega arith) (omega arith))
      ]
    ]

    Pushed-spaced : Pushed l c k s (suc m)
    Pushed-spaced =
        let e : min (suc (suc m)) nmarks ≡ suc (suc m) = omega arith in
        ap₂ (λ t n. recent (places t) n) (set-spaced m v h) e
        ∙ recent_equal (λ j. spot chain (after j)) pushed.slots (suc s.the_mark) (suc (suc m))
            (omega (arith, v.at_entry)) spot-after
        ∙ Pushing.spaced-recent nmarks several (l, c) (places s) m (omega (arith, v.at_entry)) h
        ∙ sym (
            take-length (some (l, c) ∷ recent (places s) (suc m)) nmarks
              (omega (arith, length-recent (places s) (suc m) (omega (arith, v.at_entry)))))

  Pushed-first : IsMarkRing s 0 → Pushed l c k s 0
  unfolding recent span
  Pushed-first v =
      let e : s.the_mark ≡ 0 = omega (arith, v.at_entry) in
      ap (λ t. recent (places t) 1) (set-first v)
      ∙ recent_equal (λ j. spot chain (put_slot s.slots s.the_mark (some k) j)) (λ j. some (l, c))
          s.the_mark 1 (omega arith)
          (λ j lt.
            ap (spot chain) (put_slot-here s.slots s.the_mark j (some k) (omega arith)) ∙ spot-here)
      ∙ ap (λ p. recent (record { slots = λ j. some (l, c); ptr = p }) 1) e

  module _ (v : IsMarkRing s nmarks) where
    abbrev turned : ℕ
    turned = (s.the_mark + 1) % nmarks

    spot-turned :
        (j : ℕ) (x : Mark)
        → s.slots turned ≡ some j
        → find_mark j s.buffer.marks ≡ some x
        → (i : ℕ) → i < nmarks
        → spot (at_mark j (mark_set l c) s.buffer.marks) (s.slots i)
          ≡ (Pushing.replaced nmarks several (l, c) (places s) turned).slots i
    spot-turned j x e f i lt = elim (ℕ_discrete i turned) [
      | yes same ↦
          ap (spot (at_mark j (mark_set l c) s.buffer.marks)) (ap s.slots same ∙ e)
          ∙ ap place_of (find_mark-at_mark j l c s.buffer.marks x f)
          ∙ sym (put_slot-here (places s).slots turned i (some (l, c)) same)
      | no ne ↦
          let (i', x', e', f') = v.in_use i lt in
          let differ : i' ≢ j =
            λ p. ne (v.distinct i turned lt (omega arith) (e' ∙ ap some p ∙ sym e)) in
          ap (spot (at_mark j (mark_set l c) s.buffer.marks)) e'
          ∙ ap place_of (at_mark-other j i' l c s.buffer.marks differ)
          ∙ sym (ap (spot s.buffer.marks) e')
          ∙ sym (Pushing.replaced-other nmarks several (l, c) (places s) turned i ne)
    ]

    Pushed-full : Pushed l c k s nmarks
    Pushed-full =
        let (j, x, e, f) = v.in_use turned (omega arith) in
        ap (λ t. recent (places t) nmarks) (set-turned v j e)
        ∙ recent_equal (λ i. spot (at_mark j (mark_set l c) s.buffer.marks) (s.slots i))
            (Pushing.replaced nmarks several (l, c) (places s) turned).slots turned nmarks
            (omega arith) (spot-turned j x e f)
        ∙ Pushing.full-recent nmarks several (l, c) (places s) turned (omega (arith, v.at_entry))
            (λ h. omega arith) (λ h. omega arith)

-- The new place comes before the others, and where all slots are in use the oldest goes.
pub recent-do_set_mark :
    (l c k m : ℕ) (s : Marked)
    → find_mark k s.buffer.marks ≡ none
    → IsMarkRing s m
    → Pushed l c k s m
recent-do_set_mark l c k zero s fresh v = Pushed-first l c k s fresh v
recent-do_set_mark l c k (suc m) s fresh v = elim (ℕ_discrete (suc m) nmarks) [
  | yes e ↦ subst (Pushed l c k s) (sym e) (Pushed-full l c k s fresh (subst (IsMarkRing s) e v))
  | no ne ↦ Pushed-spaced l c k s fresh m v (omega (arith, v.room))
]
