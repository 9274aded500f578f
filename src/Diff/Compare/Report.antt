-- ===== src/Diff/Compare/Report.antt =====
-- What the comparison of two flat maps reports.
use Prim.Native.String.{compare}
use trilithon.Base.{
  String, ◌≡◌, refl, ◌⊎◌, inl, inr, true, false, List, [], ◌∷◌, ◌++◌, Option, none, some, str_eq,
  eq_iff, if◌then◌else◌, All, Any, Any-append_left, Any-append_right, Bool-cases, Option-cases,
  Ordering-cases,
}
use trilithon.Base.BTreeMap.{BTreeMap, get, contains_key}
use trilithon.Model.Json.{Value}
use trilithon.Model.Pointer.{JsonPointer}
use trilithon.Diff.Compare.{
  DiffEntry, added, removed, modified, path, Engine, is_caddy_managed, before_entry, before_loop,
  after_loop, diff_flat, insert_entry, sort_entries,
}

-- The sort keeps what is in the list.
Any-insert_entry :
    (P : DiffEntry → Type 0) (e : DiffEntry) (es : List DiffEntry)
    → P e ⊎ Any P es
    → Any P (insert_entry e es)
unfolding insert_entry
Any-insert_entry P e [] h = h
Any-insert_entry P e (f ∷ es) h = elim (Ordering-cases (compare (path e) (path f))) [
  | inl q ↦ rw (q, insert_entry) h
  | inr (inl q) ↦ rw (q, insert_entry) h
  | inr (inr q) ↦
      rw (q, insert_entry)
        (elim h [
          | inl p ↦ inr (Any-insert_entry P e es (inl p))
          | inr (inl p) ↦ inl p
          | inr (inr p) ↦ inr (Any-insert_entry P e es (inr p))
        ])
]

Any-sort_entries :
    (P : DiffEntry → Type 0) (es : List DiffEntry) → Any P es → Any P (sort_entries es)
unfolding sort_entries
Any-sort_entries P [] h = h
Any-sort_entries P (e ∷ es) h =
    Any-insert_entry P e (sort_entries es)
      (elim h [ inl p ↦ inl p | inr p ↦ inr (Any-sort_entries P es p) ])

All-insert_entry :
    (P : DiffEntry → Type 0) (e : DiffEntry) (es : List DiffEntry)
    → P e
    → All P es
    → All P (insert_entry e es)
unfolding insert_entry
All-insert_entry P e [] p h = (p, tt)
All-insert_entry P e (f ∷ es) p h = elim (Ordering-cases (compare (path e) (path f))) [
  | inl q ↦ rw (q, insert_entry) (p, h)
  | inr (inl q) ↦ rw (q, insert_entry) (p, h)
  | inr (inr q) ↦ rw (q, insert_entry) (h.0, All-insert_entry P e es p h.1)
]

pub All-sort_entries :
    (P : DiffEntry → Type 0) (es : List DiffEntry) → All P es → All P (sort_entries es)
unfolding sort_entries
All-sort_entries P [] h = tt
All-sort_entries P (e ∷ es) h =
    All-insert_entry P e (sort_entries es) h.0 (All-sort_entries P es h.1)

abbrev pub Lists : List DiffEntry → DiffEntry → Type 0
Lists es e = Any (λ f. f ≡ e) es

module _ (engine : Engine) where
  -- The path is ignored, the leaf is as it was, or the entries say how it changed.
  abbrev pub Explained : JsonPointer → Option Value → Option Value → List DiffEntry → Type 0
  Explained p none none es = Unit
  Explained p (some b) none es = Lists es (removed p b)
  Explained p none (some a) es = Lists es (added p a)
  Explained p (some b) (some a) es = (engine.eq a b ≡ true) ⊎ Lists es (modified p b a)

  before_loop-Lists :
      (after m : BTreeMap Value) (k : String) (b : Value) (e : DiffEntry)
      → get m k ≡ some b
      → is_caddy_managed engine k ≡ false
      → Lists (before_entry engine k b (get after k)) e
      → Lists (before_loop engine after m).0 e
  unfolding before_loop get
  before_loop-Lists after [] k b e h n l = cc
  before_loop-Lists after ((j, w) ∷ m) k b e h n l = elim (Bool-cases (str_eq j k)) [
    | inl q ↦
        let here : some w ≡ some b = rw q at h in
        let same : w ≡ b = cc in
        let key : j ≡ k = (eq_iff j k).0 q in rw (key, n, same) (Any-append_left (λ f. f ≡ e) _ _ l)
    | inr q ↦
        let rest = before_loop-Lists after m k b e (rw q at h) n l in
        elim (Bool-cases (is_caddy_managed engine j)) [
          | inl i ↦ rw i rest
          | inr i ↦
              rw i (Any-append_right (λ f. f ≡ e) (before_entry engine j w (get after j)) _ rest)
        ]
  ]

  after_loop-Lists :
      (before m : BTreeMap Value) (k : String) (a : Value)
      → get m k ≡ some a
      → is_caddy_managed engine k ≡ false
      → get before k ≡ none
      → Lists (after_loop engine before m).0 (added k a)
  unfolding after_loop get
  after_loop-Lists before [] k a h n g = cc
  after_loop-Lists before ((j, w) ∷ m) k a h n g = elim (Bool-cases (str_eq j k)) [
    | inl q ↦
        let here : some w ≡ some a = rw q at h in
        let same : w ≡ a = cc in
        let key : j ≡ k = (eq_iff j k).0 q in rw (key, n, g, same) (inl refl)
    | inr q ↦
        let rest = after_loop-Lists before m k a (rw q at h) n g in
        elim (Bool-cases (is_caddy_managed engine j)) [
          | inl i ↦ rw i rest
          | inr i ↦ rw i (
              Any-append_right (λ f. f ≡ added k a)
                (if contains_key before j then [] else added j w ∷ []) _ rest)
        ]
  ]

  -- Every path that is not ignored is explained by the entries of the diff.
  pub diff_flat-Explained :
      (before after : BTreeMap Value) (p : JsonPointer)
      → is_caddy_managed engine p ≡ false
      → Explained p (get before p) (get after p) (diff_flat engine before after).entries
  unfolding diff_flat
  diff_flat-Explained before after p n =
      let gone = (before_loop engine after before).0 in
      let new = (after_loop engine before after).0 in
      elim (Option-cases (get before p)) [
        | inl f ↦ elim (Option-cases (get after p)) [
          | inl g ↦ rw (f, g) tt
          | inr (a, g) ↦
              rw (f, g)
                (Any-sort_entries (λ x. x ≡ added p a) (gone ++ new)
                  (Any-append_right (λ x. x ≡ added p a) gone new
                    (after_loop-Lists before after p a g n f)))
        ]
        | inr (b, f) ↦ elim (Option-cases (get after p)) [
          | inl g ↦
              rw (f, g)
                (Any-sort_entries (λ x. x ≡ removed p b) (gone ++ new)
                  (Any-append_left (λ x. x ≡ removed p b) gone new
                    (before_loop-Lists after before p b (removed p b) f n (rw g (inl refl)))))
          | inr (a, g) ↦
              rw (f, g)
                (elim (Bool-cases (engine.eq a b)) [
                  | inl e ↦ inl e
                  | inr e ↦ inr (
                      Any-sort_entries (λ x. x ≡ modified p b a) (gone ++ new)
                        (Any-append_left (λ x. x ≡ modified p b a) gone new
                          (before_loop-Lists after before p b (modified p b a) f n
                            (rw g (rw e (inl refl))))))
                ])
        ]
      ]
