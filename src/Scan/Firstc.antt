-- ===== src/Scan/Firstc.antt =====
-- What `REcompile` reads off the code holds wherever the code matches.
use jove.Base.{ℕ, ◌≡◌, ◌∷◌, some, true, ap}
use jove.Chars.{char_upcase}
use jove.Search.{Line, Code, at, normc, cindc, at_bol, at_bow, at_eow, openp, closep}
use jove.Search.Spec.{Matches}
use jove.Scan.{first_op}

-- Where the code matches, the first character that was found stands, up to case.
pub firstc_sound :
    (l : Line) (k : Code) (p e c : ℕ)
    → (first_op k).0 ≡ some c
    → Matches l k p e
    → char_upcase (at l p) ≡ c
unfolding first_op Matches
firstc_sound l (openp n k) p e c h m = firstc_sound l k p e c h m
firstc_sound l (closep n k) p e c h m = firstc_sound l k p e c h m
firstc_sound l (at_bow k) p e c h m = firstc_sound l k p e c h m.3
firstc_sound l (at_eow k) p e c h m = firstc_sound l k p e c h m.3
firstc_sound l (at_bol k) p e c h m = absurd (cc)
firstc_sound l (normc (x ∷ cs) k) p e c h m = cc (h, ap char_upcase m.0.0)
firstc_sound l (cindc (x ∷ cs) k) p e c h m = cc (h, m.0.0)
firstc_sound l _ p e c h m = absurd (cc)

-- Code that was found to be anchored matches at the start of the line alone.
pub anchored_sound :
    (l : Line) (k : Code) (p e : ℕ) → (first_op k).1 ≡ true → Matches l k p e → p ≡ 0
unfolding first_op Matches
anchored_sound l (openp n k) p e h m = anchored_sound l k p e h m
anchored_sound l (closep n k) p e h m = anchored_sound l k p e h m
anchored_sound l (at_bow k) p e h m = anchored_sound l k p e h m.3
anchored_sound l (at_eow k) p e h m = anchored_sound l k p e h m.3
anchored_sound l (at_bol k) p e h m = m.0
anchored_sound l (normc (x ∷ cs) k) p e h m = absurd (cc)
anchored_sound l (cindc (x ∷ cs) k) p e h m = absurd (cc)
anchored_sound l _ p e h m = absurd (cc)
