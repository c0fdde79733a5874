-- ===== src/Bitmap/Update.antt =====
-- About `set` and `remove`: the bitmap is a set of keys below its capacity.
use Prim.Native.Nat.{bit_and, bit_or}
use rm_uniswap.Prelude.{
  ℕ, ◌/◌, ◌%◌, ◌^◌, ◌≤◌, ◌<◌, ◌≡◌, refl, sym, ◌∙◌, arith, Bool, true, false, not, ◌&&◌, ltb, ◌==◌,
  if◌then◌else◌, Bool-cases, ==_iff, inl, inr, lt_or_ge, lt→leb, le→leb, lt→ltb, le→ltb,
}
use rm_uniswap.Bitmap.{HierBitmap, word_at, contains, set, remove, not_u64}
use rm_uniswap.Bitmap.Rewrite.{Rewritten}
use rm_uniswap.Bitmap.Well.{IsWell, sign}
use rm_uniswap.Word.Digits.{
  digit, digit-nonzero, bit_and_le, bit_or_lt, bit_or-pow_same, bit_or-pow_other,
  bit_and-clear_same, bit_and-clear_other, two_pow_lt,
}
use rm_uniswap.Word.Fields.{bit_and_mask}
use rm_uniswap.Bitmap.Keys.{
  one_bit, sign_one, nonzero_of, marked, contains_lem, top_small, with_leaf, with_all,
  Rewritten-leaf, Rewritten-all, after-IsWell, contains_after,
}

-- `r` is what an operation on the key returns, after which the key is there or not.
pub record Updates (b : HierBitmap) (key : ℕ) (there : Bool) (r : HierBitmap × Bool) : Type 0 where
  pub well : IsWell (r.0)
  pub cap_eq : r.0.cap ≡ b.cap
  pub changed : r.1 ≡ (ltb key b.cap && (if there then not (contains b key) else contains b key))
  pub keys :
      (m : ℕ) → contains (r.0) m ≡ (if (m == key) && ltb key b.cap then there else contains b m)

module _ (b : HierBitmap) (h : IsWell b) (key : ℕ) where
  outside : (there : Bool) → b.cap ≤ key → Updates b key there (b, false)
  outside there out = record {
    well = h;
    cap_eq = refl;
    changed = rw (le→ltb key b.cap out) refl;
    keys = λ m. elim (Bool-cases (m == key)) [
      | inl same ↦ rw (same, le→ltb key b.cap out) refl
      | inr other ↦ rw other refl
    ];
  }

  idle : (there : Bool) → key < b.cap → contains b key ≡ there → Updates b key there (b, false)
  idle there within e = record {
    well = h;
    cap_eq = refl;
    changed = rw (lt→ltb key b.cap within, e) (both there);
    keys = λ m. elim (Bool-cases (m == key)) [
      | inl same ↦ rw (same, lt→ltb key b.cap within, (==_iff m key).0 same) e
      | inr other ↦ rw other refl
    ];
  }
    where
      both : (x : Bool) → false ≡ (if x then not x else x)
      both true = refl
      both false = refl

  done :
      (within : key < b.cap) (there : Bool) (c : HierBitmap) (v digit_after : ℕ)
      (r : Rewritten b c (key / 64) v)
      → v < 2 ^ 64
      → digit v (key % 64) ≡ digit_after
      → ((j : ℕ) → (j == key % 64) ≡ false → digit v j ≡ digit (word_at b.layer0 (key / 64)) j)
      → contains b key ≡ not there
      → not (digit_after == 0) ≡ there
      → Updates b key there (c, true)
  done within there c v digit_after r word same other before now = record {
    well = after-IsWell b h key within c v digit_after r word same other;
    cap_eq = r.cap_eq;
    changed = rw (lt→ltb key b.cap within, before) (both there);
    keys = λ m.
        contains_after b h key within c v digit_after r word same other m
        ∙ (elim (Bool-cases (m == key)) [
          | inl at ↦ rw (at, lt→ltb key b.cap within) now
          | inr apart ↦ rw apart refl
        ]);
  }
    where
      both : (x : Bool) → true ≡ (if x then not (not x) else not x)
      both true = refl
      both false = refl

  module _ (within : key < b.cap) (there : Bool) (v digit_after : ℕ) (v_word : v < 2 ^ 64)
      (v_same : digit v (key % 64) ≡ digit_after)
      (v_other : (j : ℕ)
        → (j == key % 64) ≡ false
        → digit v j ≡ digit (word_at b.layer0 (key / 64)) j)
      (before : contains b key ≡ not there) (now : not (digit_after == 0) ≡ there) where
    done_leaf :
        sign v ≡ sign (word_at b.layer0 (key / 64))
        → Updates b key there (with_leaf b h key within v, true)
    done_leaf e =
        done within there (with_leaf b h key within v) v digit_after
          (Rewritten-leaf b h key within v e) v_word v_same v_other before now

    done_all :
        (u t : ℕ) (u_word : u < 2 ^ 64) (t_word : t < 2 ^ 64)
        (u_same : digit u (key / 64 % 64) ≡ sign v)
        (u_other : (j : ℕ)
          → (j == key / 64 % 64) ≡ false
          → digit u j ≡ digit (word_at b.layer1 (key / 64 / 64)) j)
        (t_same : digit t (key / 64 / 64) ≡ sign u)
        (t_other : (j : ℕ) → (j == key / 64 / 64) ≡ false → digit t j ≡ digit b.layer2 j)
        → Updates b key there
            (with_all b h key within v u t u_word t_word u_same u_other t_same t_other, true)
    done_all u t u_word t_word u_same u_other t_same t_other =
        done within there
          (with_all b h key within v u t u_word t_word u_same u_other t_same t_other) v digit_after
          (Rewritten-all b h key within v u t u_word t_word u_same u_other t_same t_other) v_word
          v_same v_other before now

  module _ (within : key < b.cap) where
    abbrev i1 : ℕ
    i1 = key / 64 / 64

    abbrev j1 : ℕ
    j1 = key / 64 % 64

    abbrev leaf0 : ℕ
    leaf0 = word_at b.layer0 (key / 64)

    abbrev mid0 : ℕ
    mid0 = word_at b.layer1 i1

    set_absent : (digit leaf0 (key % 64) == 0) ≡ true → Updates b key true (set b key)
    unfolding set
    set_absent absent =
        let j = key % 64 in
        let v = bit_or leaf0 (2 ^ j) in
        let u = bit_or mid0 (2 ^ j1) in
        let small = top_small b h key within in
        let on : digit v j ≡ 1 = bit_or-pow_same leaf0 j in
        let v_word = bit_or_lt 64 leaf0 (2 ^ j) (h.word0 (key / 64)) (two_pow_lt j (omega arith)) in
        let u_word = bit_or_lt 64 mid0 (2 ^ j1) (h.word1 i1) (two_pow_lt j1 (omega arith)) in
        let v_sign : sign v ≡ 1 = sign_one v (digit-nonzero v j on) in
        let u_on : digit u j1 ≡ 1 = bit_or-pow_same mid0 j1 in
        let u_sign : sign u ≡ 1 = sign_one u (digit-nonzero u j1 u_on) in
        let before : contains b key ≡ false = contains_lem b key h ∙ rw absent refl in
        rw
          (
            lt→leb b.cap key within,
            bit_and_mask 6 key,
            bit_and_mask 6 (key / 64),
            one_bit j (omega arith),
            one_bit j1 (omega arith),
            one_bit i1 small,
            marked leaf0 j (h.word0 (key / 64)),
            absent,
          )
          (elim (Bool-cases (leaf0 == 0)) [
            | inr busy ↦ rw busy (
                done_leaf within true v 1 v_word on (bit_or-pow_other leaf0 j) before refl
                  (v_sign ∙ rw busy refl))
            | inl empty ↦ rw empty (elim (Bool-cases (mid0 == 0)) [
              | inr busy ↦ rw busy (
                  done_all within true v 1 v_word on (bit_or-pow_other leaf0 j) before refl u
                    b.layer2 u_word h.word2 (u_on ∙ sym v_sign) (bit_or-pow_other mid0 j1)
                    (h.summary2 i1 ∙ rw busy refl ∙ sym u_sign) (λ k apart. refl))
              | inl clear ↦ rw clear (
                  done_all within true v 1 v_word on (bit_or-pow_other leaf0 j) before refl u
                    (bit_or b.layer2 (2 ^ i1)) u_word
                    (bit_or_lt 64 b.layer2 (2 ^ i1) h.word2 (two_pow_lt i1 small))
                    (u_on ∙ sym v_sign) (bit_or-pow_other mid0 j1)
                    (bit_or-pow_same b.layer2 i1 ∙ sym u_sign) (bit_or-pow_other b.layer2 i1))
            ])
          ])

    set_there : (digit leaf0 (key % 64) == 0) ≡ false → Updates b key true (set b key)
    unfolding set
    set_there there =
        rw
          (
            lt→leb b.cap key within,
            bit_and_mask 6 key,
            one_bit (key % 64) (omega arith),
            marked leaf0 (key % 64) (h.word0 (key / 64)),
            there,
          )
          (idle true within (contains_lem b key h ∙ rw there refl))

    remove_absent : (digit leaf0 (key % 64) == 0) ≡ true → Updates b key false (remove b key)
    unfolding remove
    remove_absent absent =
        rw
          (
            lt→leb b.cap key within,
            bit_and_mask 6 key,
            one_bit (key % 64) (omega arith),
            marked leaf0 (key % 64) (h.word0 (key / 64)),
            absent,
          )
          (idle false within (contains_lem b key h ∙ rw absent refl))

    remove_there : (digit leaf0 (key % 64) == 0) ≡ false → Updates b key false (remove b key)
    unfolding remove
    remove_there there =
        let j = key % 64 in
        let v = bit_and leaf0 (not_u64 (2 ^ j)) in
        let u = bit_and mid0 (not_u64 (2 ^ j1)) in
        let t = bit_and b.layer2 (not_u64 (2 ^ i1)) in
        let small = top_small b h key within in
        let off : digit v j ≡ 0 = bit_and-clear_same leaf0 j (omega arith) in
        let v_word : v < 2 ^ 64 =
          omega (arith, bit_and_le leaf0 (not_u64 (2 ^ j)), h.word0 (key / 64)) in
        let u_word : u < 2 ^ 64 = omega (arith, bit_and_le mid0 (not_u64 (2 ^ j1)), h.word1 i1) in
        let t_word : t < 2 ^ 64 = omega (arith, bit_and_le b.layer2 (not_u64 (2 ^ i1)), h.word2) in
        let before : contains b key ≡ true = contains_lem b key h ∙ rw there refl in
        let v_rest = λ (k : ℕ) (apart : (k == j) ≡ false).
          bit_and-clear_other leaf0 j k (h.word0 (key / 64)) (omega arith) apart in
        let u_rest = λ (k : ℕ) (apart : (k == j1) ≡ false).
          bit_and-clear_other mid0 j1 k (h.word1 i1) (omega arith) apart in
        let t_rest = λ (k : ℕ) (apart : (k == i1) ≡ false).
          bit_and-clear_other b.layer2 i1 k h.word2 small apart in
        let u_off : digit u j1 ≡ 0 = bit_and-clear_same mid0 j1 (omega arith) in
        rw
          (
            lt→leb b.cap key within,
            bit_and_mask 6 key,
            bit_and_mask 6 (key / 64),
            one_bit j (omega arith),
            one_bit j1 (omega arith),
            one_bit i1 small,
            marked leaf0 j (h.word0 (key / 64)),
            there,
          )
          (elim (Bool-cases (v == 0)) [
            | inr busy ↦
                let p : 0 < leaf0 = nonzero_of leaf0 (not_u64 (2 ^ j)) busy in
                rw busy (
                  done_leaf within false v 0 v_word off v_rest before refl
                    (rw busy (sym (sign_one leaf0 p))))
            | inl empty ↦
                let v_sign : sign v ≡ 0 = rw empty refl in
                rw empty (elim (Bool-cases (u == 0)) [
                  | inr busy ↦
                      let p : 0 < mid0 = nonzero_of mid0 (not_u64 (2 ^ j1)) busy in
                      rw busy (
                        done_all within false v 0 v_word off v_rest before refl u b.layer2 u_word
                          h.word2 (u_off ∙ sym v_sign) u_rest
                          (h.summary2 i1 ∙ sign_one mid0 p ∙ rw busy refl) (λ k apart. refl))
                  | inl clear ↦ rw clear (
                      done_all within false v 0 v_word off v_rest before refl u t u_word t_word
                        (u_off ∙ sym v_sign) u_rest
                        (bit_and-clear_same b.layer2 i1 small ∙ rw clear refl) t_rest)
                ])
          ])

  -- For a bitmap that keeps its invariant: after `set` it keeps it, with the same capacity; exactly
  -- the key is contained in addition, if it is below the capacity; the Boolean says that it is and
  -- was not contained.
  pub set-Updates : Updates b key true (set b key)
  unfolding set
  set-Updates = elim (lt_or_ge key b.cap) [
    | inr out ↦ rw (le→leb b.cap key out) (outside true out)
    | inl within ↦ elim (Bool-cases (digit (word_at b.layer0 (key / 64)) (key % 64) == 0)) [
      | inl absent ↦ set_absent within absent
      | inr there ↦ set_there within there
    ]
  ]

  -- For a bitmap that keeps its invariant: after `remove` it keeps it, with the same capacity; the
  -- key is not contained and every other key is as before; the Boolean says that the key was
  -- contained.
  pub remove-Updates : Updates b key false (remove b key)
  unfolding remove
  remove-Updates = elim (lt_or_ge key b.cap) [
    | inr out ↦ rw (le→leb b.cap key out) (outside false out)
    | inl within ↦ elim (Bool-cases (digit (word_at b.layer0 (key / 64)) (key % 64) == 0)) [
      | inl absent ↦ remove_absent within absent
      | inr there ↦ remove_there within there
    ]
  ]
