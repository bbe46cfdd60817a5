-- ===== src/Network/Ports/Unique.antt =====
-- The ports that a scanner prints, and those that its lines name.
use native.Mathlib.Decide.{dec_lt, ℕ_discrete}
use microkernel_benchmark.Prelude.{
  Any, ℕ, ◌<◌, ◌≡◌, ◌↔◌, ◌⊎◌, inl, inr, refl, ap, sym, subst, ◌∙◌, arith, List, [], ◌∷◌, ◌++◌,
  Option, none, some, true, false, ◌==◌, Bool-cases, if◌then◌else◌,
}
use microkernel_benchmark.Prelude.Int.{ℤ, pos, negsuc}
use microkernel_benchmark.CString.{Bytes}
use microkernel_benchmark.Network.Ports.{max_port, Scan, blank, note, note_found, scan}

-- No port stands in the list twice.
abbrev pub Distinct : List ℕ → Type 0
Distinct [] = Unit
Distinct (x ∷ xs) = (¬ Any (λ y. y ≡ x) xs) × Distinct xs

Any-append_left : {A : Type 0} (P : A → Type 0) (xs ys : List A) → Any P xs → Any P (xs ++ ys)
Any-append_left P [] ys a = elim a [ ]
Any-append_left P (x ∷ xs) ys (inl p) = inl p
Any-append_left P (x ∷ xs) ys (inr a) = inr (Any-append_left P xs ys a)

Any-append_last : {A : Type 0} (P : A → Type 0) (xs : List A) (y : A) → P y → Any P (xs ++ y ∷ [])
Any-append_last P [] y p = inl p
Any-append_last P (x ∷ xs) y p = inr (Any-append_last P xs y p)

Any-append_cases :
    {A : Type 0} (P : A → Type 0) (xs : List A) (y : A) → Any P (xs ++ y ∷ []) → Any P xs ⊎ P y
Any-append_cases P [] y (inl p) = inr p
Any-append_cases P [] y (inr a) = elim a [ ]
Any-append_cases P (x ∷ xs) y (inl p) = inl (inl p)
Any-append_cases P (x ∷ xs) y (inr a) = elim (Any-append_cases P xs y a) [
  | inl b ↦ inl (inr b)
  | inr p ↦ inr p
]

Distinct-append :
    (xs : List ℕ) (y : ℕ) → Distinct xs → ¬ Any (λ x. x ≡ y) xs → Distinct (xs ++ y ∷ [])
Distinct-append [] y d new = ((λ a. a), tt)
Distinct-append (x ∷ xs) y (once, d) new = (
  λ a. elim (Any-append_cases (λ z. z ≡ x) xs y a) [ inl b ↦ once b | inr e ↦ new (inl (sym e)) ],
  Distinct-append xs y d (λ a. new (inr a)),
)

-- `seen_ports` marks what has been printed.
record Inv (s : Scan) : Type 0 where
  distinct : Distinct s.printed
  marked : (p : ℕ) → Any (λ q. q ≡ p) s.printed → s.seen p ≡ true
  printed : (p : ℕ) → s.seen p ≡ true → Any (λ q. q ≡ p) s.printed

pos_inj : {p q : ℕ} → pos p ≡ pos q → p ≡ q
pos_inj e = cc

noted : ℕ → Scan → Scan
noted port s = record {
  seen = λ q. if q == port then true else s.seen q;
  printed = s.printed ++ port ∷ [];
}

-- What `note` makes of a number.
data Kind (z : ℤ) (s : Scan) : Type 0 where
  fresh :
      (port : ℕ)
      → z ≡ pos port
      → 0 < port
      → port < max_port
      → s.seen port ≡ false
      → note z s ≡ noted port s
      → Kind z s
  passed : ((p : ℕ) → z ≡ pos p → 0 < p → p < max_port → s.seen p ≡ true) → note z s ≡ s → Kind z s

kind : (z : ℤ) (s : Scan) → Kind z s
unfolding note noted
kind (negsuc n) s = passed (λ p e lo hi. cc) refl
kind (pos port) s = elim (dec_lt 0 port) [
  | no z ↦ passed (λ p e lo hi. ground (arith, pos_inj e)) (ground arith)
  | yes lo ↦ elim (dec_lt port max_port) [
    | no z ↦ passed (λ p e _ hi. ground (arith, pos_inj e)) (ground arith)
    | yes hi ↦ elim (Bool-cases (s.seen port)) [
      | inl e ↦ passed (λ p same _ _. subst (λ q. s.seen q ≡ true) (pos_inj same) e) (ground arith)
      | inr e ↦ fresh port refl lo hi e (ground arith)
    ]
  ]
]

noted-Inv : (port : ℕ) (s : Scan) → s.seen port ≡ false → Inv s → Inv (noted port s)
unfolding noted
noted-Inv port s new v = record {
  distinct =
      Distinct-append s.printed port v.distinct
        (λ a. let clash : true ≡ false = sym (v.marked port a) ∙ new in cc);
  marked = λ p a. elim (Any-append_cases (λ q. q ≡ p) s.printed port a) [
    | inl b ↦ ground (arith, v.marked p b)
    | inr e ↦ ground arith
  ];
  printed = λ p e. elim (ℕ_discrete p port) [
    | yes same ↦ Any-append_last (λ q. q ≡ p) s.printed port (sym same)
    | no ne ↦ Any-append_left (λ q. q ≡ p) s.printed (port ∷ []) (v.printed p (ground arith))
  ];
}

-- The numbers that count: ports, as the lines give them.
abbrev pub Names : (Bytes → Option ℤ) → ℕ → Bytes → Type 0
Names read p line = read line ≡ some (pos p)

abbrev Printed : Scan → ℕ → Type 0
Printed s p = Any (λ q. q ≡ p) s.printed

-- The ports that `s` holds, or that `read` then names.
abbrev Wanted : Scan → (ℕ → Type 0) → ℕ → Type 0
Wanted s Named p = Printed s p ⊎ ((0 < p) × (p < max_port) × Named p)

note-Inv : (z : ℤ) (s : Scan) → Inv s → Inv (note z s)
note-Inv z s v = elim (kind z s) [
  | fresh port e lo hi new t ↦ subst Inv (sym t) (noted-Inv port s new v)
  | passed old t ↦ subst Inv (sym t) v
]

note-Printed :
    (z : ℤ) (s : Scan) (p : ℕ) → Inv s → Printed (note z s) p ↔ Wanted s (λ q. z ≡ pos q) p
unfolding noted
note-Printed z s p v = elim (kind z s) [
  | fresh port e lo hi new t ↦
      subst (λ t. Printed t p ↔ Wanted s (λ q. z ≡ pos q) p) (sym t)
        (
          λ a. elim (Any-append_cases (λ q. q ≡ p) s.printed port a) [
            | inl b ↦ inl b
            | inr same ↦ inr (subst (λ q. (0 < q) × (q < max_port) × (z ≡ pos q)) same (lo, hi, e))
          ],
          λ w. elim w [
            | inl b ↦ Any-append_left (λ q. q ≡ p) s.printed (port ∷ []) b
            | inr (_, _, d) ↦ Any-append_last (λ q. q ≡ p) s.printed port (pos_inj (sym e ∙ d))
          ],
        )
  | passed old t ↦
      subst (λ t. Printed t p ↔ Wanted s (λ q. z ≡ pos q) p) (sym t)
        (λ a. inl a, λ w. elim w [ inl b ↦ b | inr (lo, hi, e) ↦ v.printed p (old p e lo hi) ])
]

note_found-Inv : (o : Option ℤ) (s : Scan) → Inv s → Inv (note_found o s)
unfolding note_found
note_found-Inv none s v = v
note_found-Inv (some z) s v = note-Inv z s v

note_found-Printed :
    (o : Option ℤ) (s : Scan) (p : ℕ)
    → Inv s
    → Printed (note_found o s) p ↔ Wanted s (λ q. o ≡ some (pos q)) p
unfolding note_found
note_found-Printed none s p v = ((λ a. inl a), λ w. elim w [ inl a ↦ a | inr (_, _, e) ↦ cc ])
note_found-Printed (some z) s p v = (
  λ a. elim ((note-Printed z s p v).0 a) [
    | inl b ↦ inl b
    | inr (lo, hi, e) ↦ inr (lo, hi, ap some e)
  ],
  λ w. (note-Printed z s p v).1 (elim w [ inl b ↦ inl b | inr (lo, hi, e) ↦ inr (lo, hi, cc) ]),
)

scan-Inv :
    (read : Bytes → Option ℤ) (lines : List Bytes) (s : Scan) → Inv s → Inv (scan read lines s)
unfolding scan
scan-Inv read [] s v = v
scan-Inv read (line ∷ lines) s v =
    scan-Inv read lines (note_found (read line) s) (note_found-Inv (read line) s v)

scan-Printed :
    (read : Bytes → Option ℤ) (lines : List Bytes) (s : Scan) (p : ℕ)
    → Inv s
    → Printed (scan read lines s) p ↔ Wanted s (λ q. Any (Names read q) lines) p
unfolding scan
scan-Printed read [] s p v = ((λ a. inl a), λ w. elim w [ inl a ↦ a | inr (_, _, n) ↦ elim n [ ] ])
scan-Printed read (line ∷ lines) s p v =
    let first = note_found-Printed (read line) s p v in
    let later =
      scan-Printed read lines (note_found (read line) s) p (note_found-Inv (read line) s v) in
    (
      λ a. elim (later.0 a) [
        | inl b ↦ elim (first.0 b) [ inl c ↦ inl c | inr (lo, hi, e) ↦ inr (lo, hi, inl e) ]
        | inr (lo, hi, n) ↦ inr (lo, hi, inr n)
      ],
      λ w. later.1 (elim w [
        | inl b ↦ inl (first.1 (inl b))
        | inr (lo, hi, inl e) ↦ inl (first.1 (inr (lo, hi, e)))
        | inr (lo, hi, inr n) ↦ inr (lo, hi, n)
      ]),
    )

-- However a line is read: the scanner prints no port twice, and it prints exactly the numbers
-- between 0 and 65536, both excluded, that some line of the output names.
pub scan-exact :
    (read : Bytes → Option ℤ) (lines : List Bytes)
    → Distinct (scan read lines blank).printed
      × ((p : ℕ)
          → Any (λ q. q ≡ p) (scan read lines blank).printed
            ↔ ((0 < p) × (p < max_port) × Any (Names read p) lines))
scan-exact read lines =
    let start : Inv blank = record {
      distinct = tt;
      marked = λ p a. elim a [ ];
      printed = λ p e. cc;
    } in
    (
      (scan-Inv read lines blank start).distinct,
      λ p.
          let all = scan-Printed read lines blank p start in
          (λ a. elim (all.0 a) [ inl b ↦ elim b [ ] | inr w ↦ w ], λ w. all.1 (inr w)),
    )
