-- ===== src/Poll/Lookup.antt =====
-- What the table holds under each key, after `fd_add` and after `fd_remove`.
use c3qo.Base.{
  subst, ℕ, zero, suc, ◌≡◌, refl, Bool, true, ◌&&◌, inl, inr, Option, none, some, List, [], ◌∷◌,
  ◌++◌, ℤ, eq_ℤ, Ptr, eq_ptr, eq_ptr_iff, erase_idx, arith, if◌then◌else◌, Bool-cases,
}
use c3qo.World.{FileDesc, PollItem, Manager}
use c3qo.Poll.{modify_at, is_entry, register, unregister}
use c3qo.Poll.Table.{
  NoEntry, FirstAt, fd_find-cases, set_mask, entry_of, register-new, register-old, unregister-none,
  unregister-some,
}
use c3qo.Poll.Valid.{Aligned, IsDistinct, HasTable}

unfoldable pub find_item : ℤ → Ptr → List PollItem → Option PollItem
find_item fd socket [] = none
find_item fd socket (x ∷ l) = if is_entry fd socket x then some x else find_item fd socket l

abbrev pub is_callback : ℤ → Ptr → FileDesc → Bool
is_callback fd socket c = eq_ℤ c.fd fd && eq_ptr c.socket socket

unfoldable pub find_callback : ℤ → Ptr → List FileDesc → Option FileDesc
find_callback fd socket [] = none
find_callback fd socket (c ∷ l) =
    if is_callback fd socket c then some c else find_callback fd socket l

abbrev pub or_else : {A : Type 0} → Option A → Option A → Option A
or_else none o = o
or_else (some a) o = some a

is_entry-eq :
    (fd : ℤ) (socket : Ptr) (x : PollItem)
    → is_entry fd socket x ≡ true
    → (x.fd ≡ fd) × (x.socket ≡ socket)
is_entry-eq fd socket x h = ground (arith, eq_ptr_iff x.socket socket)

module _ (g : ℤ) (s : Ptr) (d : FileDesc) where
  find_item-modify :
      (l : List PollItem) (k : ℕ)
      → FirstAt d.fd d.socket l k
      → find_item g s (modify_at l k (set_mask d))
        ≡ (if is_entry g s (entry_of d) then some (entry_of d) else find_item g s l)
  unfolding find_item
  find_item-modify [] k f = absurd f
  find_item-modify (x ∷ l) zero f = let (e, e') = is_entry-eq d.fd d.socket x f in ground arith
  find_item-modify (x ∷ l) (suc k) f = ground (
    arith,
    find_item-modify l k f.1,
    is_entry-eq g s x,
    eq_ptr_iff d.socket s,
    eq_ptr_iff x.socket d.socket,
  )

  find_item-append :
      (l : List PollItem)
      → NoEntry d.fd d.socket l
      → find_item g s (l ++ entry_of d ∷ [])
        ≡ (if is_entry g s (entry_of d) then some (entry_of d) else find_item g s l)
  unfolding find_item
  find_item-append [] n = refl
  find_item-append (x ∷ l) n = ground (
    arith,
    find_item-append l n.1,
    is_entry-eq g s x,
    eq_ptr_iff d.socket s,
    eq_ptr_iff x.socket d.socket,
  )

  find_callback-append :
      (l : List FileDesc)
      → find_callback g s (l ++ d ∷ [])
        ≡ or_else (find_callback g s l) (if is_callback g s d then some d else none)
  unfolding find_callback
  find_callback-append [] = refl
  find_callback-append (x ∷ l) = ground (arith, find_callback-append l)

  find_callback-FirstAt :
      (cs : List FileDesc) (l : List PollItem) (k : ℕ)
      → Aligned cs l
      → FirstAt d.fd d.socket l k
      → is_callback g s d ≡ true
      → (c : FileDesc) × (find_callback g s cs ≡ some c)
  unfolding find_callback
  find_callback-FirstAt cs [] k a f h = absurd f
  find_callback-FirstAt [] (x ∷ l) k a f h = absurd a
  find_callback-FirstAt (c ∷ cs) (x ∷ l) zero a f h = (
    c,
    ground (arith, eq_ptr_iff x.socket d.socket, eq_ptr_iff d.socket s, eq_ptr_iff c.socket s),
  )
  find_callback-FirstAt (c ∷ cs) (x ∷ l) (suc k) a f h = elim (Bool-cases (is_callback g s c)) [
    | inl hit ↦ (c, rw (hit, find_callback))
    | inr miss ↦
        let (c', e) = find_callback-FirstAt cs l k a.2 f.1 h in (c', rw (miss, find_callback) e)
  ]

find_item-none : (g : ℤ) (s : Ptr) (l : List PollItem) → NoEntry g s l → find_item g s l ≡ none
unfolding find_item
find_item-none g s [] n = refl
find_item-none g s (x ∷ l) n = rw (n.0, find_item) (find_item-none g s l n.1)

find_callback-none :
    (g : ℤ) (s : Ptr) (cs : List FileDesc) (l : List PollItem)
    → Aligned cs l
    → NoEntry g s l
    → find_callback g s cs ≡ none
unfolding find_callback
find_callback-none g s [] l a n = refl
find_callback-none g s (c ∷ cs) [] a n = absurd a
find_callback-none g s (c ∷ cs) (x ∷ l) a n = ground (arith, find_callback-none g s cs l a.2 n.1)

module _ (g : ℤ) (s : Ptr) (d : FileDesc) where
  NoEntry-key :
      (x : PollItem) (l : List PollItem)
      → NoEntry x.fd x.socket l
      → is_entry d.fd d.socket x ≡ true
      → is_entry g s (entry_of d) ≡ true
      → NoEntry g s l
  NoEntry-key x l n h k =
      let gx : x.fd ≡ g = ground arith in
      let sx : x.socket ≡ s = ground (arith, eq_ptr_iff x.socket d.socket, eq_ptr_iff d.socket s) in
      subst (λ t. NoEntry g t l) sx (subst (λ t. NoEntry t x.socket l) gx n)

  NoEntry-callback :
      (l : List PollItem) → NoEntry d.fd d.socket l → is_callback g s d ≡ true → NoEntry g s l
  NoEntry-callback l n k =
      let gd : d.fd ≡ g = ground arith in
      let sd : d.socket ≡ s = ground (arith, eq_ptr_iff d.socket s) in
      subst (λ t. NoEntry g t l) sd (subst (λ t. NoEntry t d.socket l) gd n)

  find_item-erase :
      (l : List PollItem) (k : ℕ)
      → IsDistinct l
      → FirstAt d.fd d.socket l k
      → find_item g s (erase_idx l k)
        ≡ (if is_entry g s (entry_of d) then none else find_item g s l)
  unfolding find_item
  find_item-erase [] k n f = absurd f
  find_item-erase (x ∷ l) zero n f = elim (Bool-cases (is_entry g s (entry_of d))) [
    | inl key ↦ rw key (find_item-none g s l (NoEntry-key x l n.0 f key))
    | inr other ↦
        ground (arith, eq_ptr_iff x.socket d.socket, eq_ptr_iff d.socket s, eq_ptr_iff x.socket s)
  ]
  find_item-erase (x ∷ l) (suc k) n f = ground (
    arith,
    find_item-erase l k n.1 f.1,
    eq_ptr_iff x.socket d.socket,
    eq_ptr_iff d.socket s,
    eq_ptr_iff x.socket s,
  )

  find_callback-erase :
      (cs : List FileDesc) (l : List PollItem) (k : ℕ)
      → Aligned cs l
      → IsDistinct l
      → FirstAt d.fd d.socket l k
      → find_callback g s (erase_idx cs k)
        ≡ (if is_callback g s d then none else find_callback g s cs)
  unfolding find_callback
  find_callback-erase cs [] k a n f = absurd f
  find_callback-erase [] (x ∷ l) k a n f = absurd a
  find_callback-erase (c ∷ cs) (x ∷ l) zero a n f = elim (Bool-cases (is_callback g s d)) [
    | inl key ↦ rw key (find_callback-none g s cs l a.2 (NoEntry-key x l n.0 f key))
    | inr other ↦
        ground (arith, eq_ptr_iff x.socket d.socket, eq_ptr_iff d.socket s, eq_ptr_iff c.socket s)
  ]
  find_callback-erase (c ∷ cs) (x ∷ l) (suc k) a n f = ground (
    arith,
    find_callback-erase cs l k a.2 n.1 f.1,
    eq_ptr_iff x.socket d.socket,
    eq_ptr_iff d.socket s,
    eq_ptr_iff c.socket s,
  )

module _ (d : FileDesc) (m : Manager) (t : HasTable m) (g : ℤ) (s : Ptr) where
  -- On a well-formed table: after `fd_add` the key of its argument has the event flags of the
  -- argument, whatever it had before, and every other key has what it had. A key that was there
  -- keeps its old callback, and only a key that was not gets the new one.
  pub register-lookup :
      (find_item g s (register d m).fd
        ≡ (if is_entry g s (entry_of d) then some (entry_of d) else find_item g s m.fd))
      × (find_callback g s (register d m).callback
          ≡ or_else (find_callback g s m.callback) (if is_callback g s d then some d else none))
  register-lookup = elim (fd_find-cases d.fd d.socket m.fd) [
    | inl (e, n) ↦
        rw (register-new d m e)
          (find_item-append g s d m.fd n, find_callback-append g s d m.callback)
    | inr (k, e, f) ↦ rw (register-old d m k e) (
      find_item-modify g s d m.fd k f,
      elim (Bool-cases (is_callback g s d)) [
        | inl key ↦
            let (c, h) = find_callback-FirstAt g s d m.callback m.fd k t.aligned f key in rw h
        | inr other ↦ rw other (ground arith)
      ],
    )
  ]

  -- On a well-formed table, `fd_remove` takes the entry and the callback of its key out, and no other.
  pub unregister-lookup :
      (find_item g s (unregister d m).fd
        ≡ (if is_entry g s (entry_of d) then none else find_item g s m.fd))
      × (find_callback g s (unregister d m).callback
          ≡ (if is_callback g s d then none else find_callback g s m.callback))
  unregister-lookup = elim (fd_find-cases d.fd d.socket m.fd) [
    | inl (e, n) ↦ rw (unregister-none d m e) (elim (Bool-cases (is_callback g s d)) [
      | inl key ↦
          let absent = NoEntry-callback g s d m.fd n key in
          rw key (
            find_item-none g s m.fd absent,
            find_callback-none g s m.callback m.fd t.aligned absent,
          )
      | inr other ↦ rw other (refl, refl)
    ])
    | inr (k, e, f) ↦ rw (unregister-some d m k e) (
      find_item-erase g s d m.fd k t.distinct f,
      find_callback-erase g s d m.callback m.fd k t.aligned t.distinct f,
    )
  ]
