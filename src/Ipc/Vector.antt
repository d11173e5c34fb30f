-- ===== src/Ipc/Vector.antt =====
-- The vector of `int`s that broker/ takes from the library in common/ds: an interface with the laws
-- that the broker relies on.
use sistemas_distribuid.Base.{
  ℕ, zero, suc, ◌+◌, ◌≤◌, ◌<◌, ◌≡◌, refl, ap, ◌∙◌, length, ℤ, List, [], ◌∷◌, ◌++◌, arith,
}

pub record Vector (V : Type 0) : Type 0 where
  pub vector_new : V
  pub vector_add : V → ℤ → V
  pub vector_size : V → ℕ
  pub vector_item_at : V → ℕ → ℤ

pub record IsVector {V : Type 0} (o : Vector V) : Type 0 where
  pub size-new : o.vector_size o.vector_new ≡ 0
  pub size-add : (v : V) (a : ℤ) → o.vector_size (o.vector_add v a) ≡ suc (o.vector_size v)
  pub item_at-add_old :
      (v : V) (a : ℤ) (i : ℕ)
      → i < o.vector_size v
      → o.vector_item_at (o.vector_add v a) i ≡ o.vector_item_at v i
  pub item_at-add_new : (v : V) (a : ℤ) → o.vector_item_at (o.vector_add v a) (o.vector_size v) ≡ a

-- The items at `i`, `i + 1`, and so on, as many as asked for.
abbrev pub items_from : {V : Type 0} → Vector V → V → ℕ → ℕ → List ℤ
items_from o v zero i = []
items_from o v (suc n) i = o.vector_item_at v i ∷ items_from o v n (suc i)

abbrev pub items : {V : Type 0} → Vector V → V → List ℤ
items o v = items_from o v (o.vector_size v) 0

-- The items before an index do not see an addition behind it.
items_from-add :
    {V : Type 0} {o : Vector V} (v : V) (a : ℤ) (n i : ℕ)
    → IsVector o
    → n + i ≤ o.vector_size v
    → items_from o (o.vector_add v a) n i ≡ items_from o v n i
items_from-add v a zero i law h = refl
items_from-add {o = o} v a (suc n) i law h =
    rw (law.item_at-add_old v a i (omega arith), items_from-add v a n (suc i) law (omega arith))
      refl

items_from-suc :
    {V : Type 0} (o : Vector V) (v : V) (n i j : ℕ)
    → n + i ≡ j
    → items_from o v (suc n) i ≡ items_from o v n i ++ o.vector_item_at v j ∷ []
items_from-suc o v zero i j h = ap (λ k. o.vector_item_at v k ∷ []) {x = i} {y = j} (omega arith)
items_from-suc o v (suc n) i j h =
    ap (◌∷◌ (o.vector_item_at v i)) (items_from-suc o v n (suc i) j (omega arith))

-- `vector_add` appends to the items.
pub items-add :
    {V : Type 0} {o : Vector V} (v : V) (a : ℤ)
    → IsVector o
    → items o (o.vector_add v a) ≡ items o v ++ a ∷ []
items-add {o = o} v a law =
    let n : ℕ = o.vector_size v in
    let old = items_from-add v a n 0 law (omega arith) in
    ap (λ k. items_from o (o.vector_add v a) k 0) (law.size-add v a)
    ∙ items_from-suc o (o.vector_add v a) n 0 n (omega arith)
    ∙ rw (old, law.item_at-add_new v a) refl

pub length-items_from :
    {V : Type 0} (o : Vector V) (v : V) (n i : ℕ) → length (items_from o v n i) ≡ n
length-items_from o v zero i = refl
length-items_from o v (suc n) i = ap suc (length-items_from o v n (suc i))
