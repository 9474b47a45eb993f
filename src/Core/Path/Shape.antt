-- ===== src/Core/Path/Shape.antt =====
-- What the loop of `normalize` collects: some `..`, then names; none of the former under the root.
use putup.Prelude.{
  ℕ, zero, suc, ◌≡◌, refl, ap, ap₂, ◌∙◌, Bool, true, false, not, ◌&&◌, List, [], ◌∷◌, ◌++◌, reverse,
  reverse-append, Bytes, slash, bytes_eq→eq, bytes_eq_refl, All, All-append, if_cases, arith,
  Bool-cases, inl, inr, count,
}
use putup.Core.Path.{dot_dot, is_skipped, is_up, can_pop, pop_back, push_part, collect}

abbrev pub HasNoSlash : Bytes → Type 0
HasNoSlash s = count slash s ≡ 0

abbrev pub IsName : Bytes → Type 0
IsName s = (is_skipped s ≡ false) × (is_up s ≡ false) × HasNoSlash s

abbrev pub ups : ℕ → List Bytes
ups zero = []
ups (suc n) = dot_dot ∷ ups n

-- the parts collected, the newest first
pub record Stack (absolute : Bool) (parts : List Bytes) : Type 0 where
  pub height : ℕ
  pub names : List Bytes
  pub same : parts ≡ names ++ ups height
  pub named : All IsName names
  pub rooted : absolute ≡ true → height ≡ 0

pub up_eq : (s : Bytes) → is_up s ≡ true → s ≡ dot_dot
up_eq s h = bytes_eq→eq s dot_dot h

conflict :
    (up pops other : Bool) → up ≡ true → (up && pops) ≡ false → pops ≡ not other → other ≡ false → ⊥
conflict up pops other a b c d = ground arith

push_part-Stack :
    (absolute : Bool) (part : Bytes) (parts : List Bytes)
    → HasNoSlash part
    → Stack absolute parts
    → Stack absolute (push_part absolute part parts)
unfolding push_part
push_part-Stack absolute part parts clean st =
    if_cases (Stack absolute) (is_skipped part) parts _ (λ e. st)
      (λ kept.
        if_cases (Stack absolute) (is_up part && can_pop parts) (pop_back parts) _
          (λ pops.
            popped st.names st.height st.same st.named st.rooted
              (and_right (is_up part) (can_pop parts) pops))
          (λ stays.
            if_cases (Stack absolute) (is_up part && absolute) parts (part ∷ parts) (λ e. st)
              (λ goes. pushed kept goes st.names st.height st.same st.named st.rooted stays)))
  where
    and_right : (b c : Bool) → (b && c) ≡ true → c ≡ true
    and_right true c h = h
    and_right false c h = cc

    popped :
        (names : List Bytes) (n : ℕ)
        → parts ≡ names ++ ups n
        → All IsName names
        → (absolute ≡ true → n ≡ 0)
        → can_pop parts ≡ true
        → Stack absolute (pop_back parts)
    popped [] zero e a r p = let stuck : can_pop parts ≡ false = ap can_pop e in cc
    popped [] (suc n) e a r p =
        let stuck : can_pop parts ≡ false = ap can_pop e ∙ ap not (bytes_eq_refl dot_dot) in cc
    popped (x ∷ names) n e (m, a) r p = record {
      height = n;
      names = names;
      same = ap pop_back e;
      named = a;
      rooted = r;
    }

    pushed :
        is_skipped part ≡ false
        → (is_up part && absolute) ≡ false
        → (names : List Bytes) (n : ℕ) → parts ≡ names ++ ups n
        → All IsName names
        → (absolute ≡ true → n ≡ 0)
        → (is_up part && can_pop parts) ≡ false
        → Stack absolute (part ∷ parts)
    pushed kept goes [] n e a r stays = elim (Bool-cases (is_up part)) [
      | inl up ↦ record {
        height = suc n;
        names = [];
        same = ap₂ (λ x xs. x ∷ xs) (up_eq part up) e;
        named = tt;
        rooted = λ under. cc;
      }
      | inr name ↦ record {
        height = n;
        names = part ∷ [];
        same = ap (λ xs. part ∷ xs) e;
        named = ((kept, name, clean), tt);
        rooted = r;
      }
    ]
    pushed kept goes (x ∷ names) n e (m, a) r stays = elim (Bool-cases (is_up part)) [
      | inl up ↦
          let free : can_pop parts ≡ not (is_up x) = ap can_pop e in
          absurd (conflict (is_up part) (can_pop parts) (is_up x) up stays free m.1)
      | inr name ↦ record {
        height = n;
        names = part ∷ x ∷ names;
        same = ap (λ xs. part ∷ xs) e;
        named = ((kept, name, clean), (m, a));
        rooted = r;
      }
    ]

collect-Stack :
    (absolute : Bool) (rest parts : List Bytes)
    → All HasNoSlash rest
    → Stack absolute parts
    → Stack absolute (collect absolute rest parts)
unfolding collect
collect-Stack absolute [] parts a st = st
collect-Stack absolute (s ∷ rest) parts (c, a) st =
    collect-Stack absolute rest (push_part absolute s parts) a
      (push_part-Stack absolute s parts c st)

-- the parts of a normal path, the oldest first
pub record Shape (absolute : Bool) (parts : List Bytes) : Type 0 where
  pub height : ℕ
  pub names : List Bytes
  pub same : parts ≡ ups height ++ names
  pub named : All IsName names
  pub rooted : absolute ≡ true → height ≡ 0

pub reverse-cons : (x : Bytes) (xs : List Bytes) → reverse (x ∷ xs) ≡ reverse xs ++ x ∷ []
reverse-cons x xs = reverse-append (x ∷ []) xs

pub All-reverse : (xs : List Bytes) → All IsName xs → All IsName (reverse xs)
All-reverse [] a = tt
All-reverse (x ∷ xs) (p, a) =
    rw (reverse-cons x xs) (All-append IsName (reverse xs) (x ∷ []) (All-reverse xs a) (p, tt))

ups-snoc : (n : ℕ) → ups n ++ dot_dot ∷ [] ≡ dot_dot ∷ ups n
ups-snoc zero = refl
ups-snoc (suc n) = ap (λ xs. dot_dot ∷ xs) (ups-snoc n)

pub reverse-ups : (n : ℕ) → reverse (ups n) ≡ ups n
reverse-ups zero = refl
reverse-ups (suc n) =
    reverse-cons dot_dot (ups n) ∙ ap (λ xs. xs ++ dot_dot ∷ []) (reverse-ups n) ∙ ups-snoc n

pub collect-Shape :
    (absolute : Bool) (rest : List Bytes)
    → All HasNoSlash rest
    → Shape absolute (reverse (collect absolute rest []))
collect-Shape absolute rest a =
    let st =
      collect-Stack absolute rest [] a
        (record { height = 0; names = []; same = refl; named = tt; rooted = λ e. refl }) in
    record {
      height = st.height;
      names = reverse st.names;
      same =
          ap reverse st.same
          ∙ reverse-append st.names (ups st.height)
          ∙ ap (λ xs. xs ++ reverse st.names) (reverse-ups st.height);
      named = All-reverse st.names st.named;
      rooted = st.rooted;
    }
