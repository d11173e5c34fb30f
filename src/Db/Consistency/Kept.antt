-- ===== src/Db/Consistency/Kept.antt =====
-- The operations of broker/db-server/db.c on consistent files.
use sistemas_distribuid.Base.{
  ◌≡◌, refl, ap, sym, ◌∙◌, ◌⊎◌, inl, inr, ℤ, ◌=ℤ◌, =ℤ_iff, Bool, true, ◌||◌, print, strtol,
  strtol-print, strtol-IsInt, IsInt, text_eq, text_eq_iff, text_eq_refl, List, [], ◌∷◌, ◌++◌, map,
  Bool-cases, subst, arith,
}
use sistemas_distribuid.Db.Disk.{Text, Disk, Io, lookup}
use sistemas_distribuid.Db.Files.{lines_of, add_user}
use sistemas_distribuid.Db.Files.Working.{IsWorking, add_user_lem, true≢false}
use sistemas_distribuid.Db.Subscriptions.{subscribe, delete}
use sistemas_distribuid.Db.Subscriptions.Laws.{subs, topics_of, others, is_some, subscribe_lem}
use sistemas_distribuid.Db.Subscriptions.Delete.{IsPlain, has_text}
use sistemas_distribuid.Db.Consistency.{
  IsConsistent, has_id, has_id-others, has_id-others_sub, delete_lem,
}

member-IsInt : (i : ℤ) (lines : List Text) → has_id i (map strtol lines) ≡ true → IsInt i
member-IsInt i [] h = absurd (true≢false (sym h))
member-IsInt i (line ∷ lines) h = elim (Bool-cases (strtol line =ℤ i)) [
  | inl this ↦ subst IsInt ((=ℤ_iff (strtol line) i).0 this) (strtol-IsInt line)
  | inr other ↦ member-IsInt i lines (rw other at h)
]

print-injective : (i j : ℤ) → IsInt i → IsInt j → print i ≡ print j → i ≡ j
print-injective i j hi hj e = sym (strtol-print i hi) ∙ ap strtol e ∙ strtol-print j hj

has_id-append :
    (i j : ℤ) (ids : List ℤ) → has_id i (ids ++ j ∷ []) ≡ true → (has_id i ids ≡ true) ⊎ (j ≡ i)
has_id-append i j [] h = ground (arith, =ℤ_iff j i)
has_id-append i j (x ∷ ids) h = ground (arith, has_id-append i j ids)

has_text-append :
    (t s : Text) (ts : List Text) → has_text t (ts ++ s ∷ []) ≡ has_text t ts || text_eq s t
has_text-append t s [] = ground arith
has_text-append t s (x ∷ ts) = ground (arith, has_text-append t s ts)

or_true : (a : Bool) → a || true ≡ true
or_true a = ground arith

-- Where the file system refuses nothing, deleting a user that exists keeps consistent files
-- consistent.
pub delete-IsConsistent :
    {io : Io} (id : ℤ) (d : Disk)
    → IsWorking io
    → IsConsistent d
    → IsInt id
    → is_some (lookup (print id) d.users) ≡ true
    → IsConsistent (delete io id d).1
delete-IsConsistent {io} id d ok sound int there =
    let (_, users, topics, exists) = delete_lem id d ok sound there in
    record {
      listed = λ t i plain member.
          let kept : has_id i (others id (subs t d)) ≡ true = rw (topics t plain) at member in
          let old = sound.listed t i plain (has_id-others_sub id i (subs t d) kept) in
          rw (users (print i)) (elim (Bool-cases (text_eq (print id) (print i))) [
            | inl same ↦ absurd (deleted t i kept ((text_eq_iff (print id) (print i)).0 same))
            | inr other ↦ rw other old
          ]);
      exist = λ n t member. elim (Bool-cases (text_eq (print id) n)) [
        | inl same ↦ absurd (true≢false (sym member ∙ rw (users n, same)))
        | inr other ↦
            let (e, plain) = sound.exist n t (rw (users n, other) at member) in
            (exists t plain e, plain)
      ];
    }
  where
    deleted : (t : Text) (i : ℤ) → has_id i (others id (subs t d)) ≡ true → print id ≡ print i → ⊥
    deleted t i kept same =
        let member = has_id-others_sub id i (subs t d) kept in
        let e : id ≡ i =
          print-injective id i int (member-IsInt i (lines_of (lookup t d.topics)) member) same in
        true≢false (
          sym (subst (λ j. has_id j (others id (subs t d)) ≡ true) (sym e) kept)
          ∙ has_id-others id (subs t d))

-- Where the file system refuses nothing, subscribing a user that exists to a topic that is not
-- named like the temporary file keeps consistent files consistent.
pub subscribe-IsConsistent :
    {io : Io} (id : ℤ) (topic : Text) (d : Disk)
    → IsWorking io
    → IsConsistent d
    → IsInt id
    → IsPlain topic
    → is_some (lookup (print id) d.users) ≡ true
    → IsConsistent (subscribe io id topic d).1
subscribe-IsConsistent {io} id topic d ok sound int plain there =
    let (_, users, topics, exists, made) = subscribe_lem ok id topic d int there in
    let own : List Text = topics_of id d ++ topic ∷ [] in
    let grows : (i : ℤ) (t : Text)
        → has_text t (topics_of i d) ≡ true
        → has_text t (topics_of i (subscribe io id topic d).1) ≡ true =
      λ i t h. rw (users (print i)) (elim (Bool-cases (text_eq (print id) (print i))) [
        | inl same ↦ rw (
          same,
          has_text-append t topic (topics_of id d),
          (text_eq_iff (print id) (print i)).0 same,
          h,
        )
        | inr other ↦ rw other h
      ]) in
    record {
      listed = λ t i h member. elim (Bool-cases (text_eq topic t)) [
        | inl this ↦ elim (has_id-append i id (subs t d) (rw (topics t, this) at member)) [
          | inl old ↦ grows i t (sound.listed t i h old)
          | inr e ↦
              rw
                (
                  users (print i),
                  ← e,
                  text_eq_refl (print id),
                  has_text-append t topic (topics_of id d),
                  this,
                )
                (or_true (has_text t (topics_of id d)))
        ]
        | inr other ↦ grows i t (sound.listed t i h (rw (topics t, other) at member))
      ];
      exist = λ n t member. elim (Bool-cases (text_eq (print id) n)) [
        | inl same ↦
            let both : has_text t (topics_of id d) || text_eq topic t ≡ true =
              rw (users n, same, has_text-append t topic (topics_of id d)) at member in
            elim (Bool-cases (has_text t (topics_of id d))) [
              | inl old ↦ let (e, p) = sound.exist (print id) t old in (exists t e, p)
              | inr new ↦
                  let this : topic ≡ t = (text_eq_iff topic t).0 (rw new at both) in
                  subst
                    (λ s.
                      (is_some (lookup s (subscribe io id topic d).1.topics) ≡ true) × IsPlain s)
                    this (made, plain)
            ]
        | inr other ↦
            let (e, p) = sound.exist n t (rw (users n, other) at member) in (exists t e, p)
      ];
    }

-- Where the file system refuses nothing, adding a user keeps consistent files consistent, whether
-- there is an id for it or not.
pub add_user-IsConsistent :
    {io : Io} (d : Disk) → IsWorking io → IsConsistent d → IsConsistent (add_user io d).1
add_user-IsConsistent {io} d ok sound =
    let (answer, topics) = add_user_lem d ok in
    let same_lines : (n : Text)
        → lines_of (lookup n (add_user io d).1.users) ≡ lines_of (lookup n d.users) =
      λ n. elim answer [
        | inr (bad, same) ↦ ap (λ us. lines_of (lookup n us)) same
        | inl (good, missing, us) ↦
            rw (us n) (elim (Bool-cases (text_eq (print (add_user io d).0) n)) [
              | inl same ↦
                  rw (same, ← (text_eq_iff (print (add_user io d).0) n).0 same, missing) refl
              | inr other ↦ rw other refl
            ])
      ] in
    record {
      listed = λ t i h member. rw (same_lines (print i)) (sound.listed t i h (rw topics at member));
      exist = λ n t member. rw topics (sound.exist n t (rw (same_lines n) at member));
    }
