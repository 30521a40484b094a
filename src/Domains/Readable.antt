-- ===== src/Domains/Readable.antt =====
-- What the domain manager promises: the buffer that it makes readable has the type, the dimensions
-- and the bytes of the one it was given, and can be accessed from the domain asked for.
use libpressio.Base.{
  Bool, Bool-cases, List, inl, inr, subst, false, ◌⊎◌, Option, Text, [], arith, codes,
  if◌then◌else◌, length, none, ap, refl, some, text_eq, text_eq_refl, true, ℕ, ◌++◌, ◌+◌, ◌∙◌, ◌∷◌,
  ◌≡◌, sym,
}
use libpressio.Memory.Heap.{
  Heap, Domain, malloc, nonowning, domain_id, Outcome, returns, ◌>>=◌, System, alloc, allocated,
  find_block, write_block,
}
use libpressio.Memory.Ownership.{IsValid, Below, find_block-Below}
use libpressio.Memory.Ops.{view, allocate, move_construct, moved}
use libpressio.Data.Buffer.{
  Buffer, has_data, nonowning_of, nonowning_in, owning, construct, size_in_bytes,
}
use libpressio.Domains.Access.{is_accessible, lists, accessible, found}
use libpressio.Domains.Hooks.{
  Hook, Event, begins, ends, Run, between, continued, followed, silent, unchanged, with_domain,
}
use libpressio.Domains.Manager.{send, send_by, allocate_like, readable_in, make_readable_in}

-- The bytes that a buffer points at.
abbrev pub contents : Buffer → Heap → Option (List ℕ)
contents b h = elim b.memory.data_ptr [ none ↦ none | some p ↦ find_block p h.blocks ]

-- The abstract buffer: a type, dimensions and bytes, wherever they are.
abbrev pub Presents : Buffer → Heap → Buffer → Heap → Type 0
Presents out h' src h =
    (out.data_dtype ≡ src.data_dtype) × (out.dims ≡ src.dims) × (contents out h' ≡ contents src h)

module _ (others : Text → List Text) where
  -- The buffer is in a domain that can be accessed from `d`.
  abbrev pub IsWithin : Domain → Buffer → Type 0
  IsWithin d out = (o : Domain) × (out.memory.domain ≡ some o) × (is_accessible others d o ≡ true)

  found_head : (id : Text) (ids : List Text) → found id (id ∷ ids) ≡ true
  unfolding found
  found_head id ids = rw (text_eq_refl id) refl

  is_accessible_self : (d : Domain) → is_accessible others d d ≡ true
  unfolding is_accessible
  is_accessible_self d = rw (text_eq_refl (domain_id d)) refl

  either_or :
      (a b c : Bool)
      → (if a then true else (if b then true else false)) ≡ true
      → (if a then true else (if b then true else c)) ≡ true
  either_or true b c h = refl
  either_or false true c h = refl
  either_or false false c h = cc

  -- A view of what can be accessed can be accessed.
  is_accessible-nonowning :
      (d s : Domain)
      → is_accessible others d s ≡ true
      → is_accessible others d (nonowning (domain_id s)) ≡ true
  unfolding is_accessible accessible lists domain_id
  is_accessible-nonowning d (nonowning id) h = h
  is_accessible-nonowning d malloc h =
      either_or (text_eq (domain_id d) (codes "malloc"))
        (lists (codes "malloc") (accessible others d))
        (lists (domain_id d) (accessible others (nonowning (codes "malloc")))) h

  -- `nonowning` of a buffer is a view of its bytes.
  nonowning_of-view :
      (src : Buffer) (s : Domain)
      → src.memory.domain ≡ some s
      → nonowning_of src
        ≡ returns (record {
          data_dtype = src.data_dtype;
          dims = src.dims;
          memory = view src.memory.data_ptr (size_in_bytes src) (nonowning (domain_id s));
        })
  unfolding nonowning_of nonowning_in construct move_construct moved size_in_bytes
  nonowning_of-view src s h = rw h refl

  module _ (system : System) (senders : Text → Option (Buffer → Buffer → Heap → Outcome Heap)) where
    -- A sender writes the bytes of the source where the destination points, if it points at as many.
    abbrev pub Sends : (Buffer → Buffer → Heap → Outcome Heap) → Type 0
    Sends f =
        (dst src : Buffer) (h : Heap) (p : ℕ) (old bytes : List ℕ)
        → dst.memory.data_ptr ≡ some p
        → find_block p h.blocks ≡ some old
        → contents src h ≡ some bytes
        → length old ≡ length bytes
        → f dst src h ≡ returns (record h { blocks = write_block p bytes h.blocks })

    find_block-write_block :
        (p : ℕ) (old bytes : List ℕ) (bs : List (ℕ × List ℕ))
        → find_block p bs ≡ some old
        → find_block p (write_block p bytes bs) ≡ some bytes
    find_block-write_block p old bytes [] e = cc
    find_block-write_block p old bytes ((q, b) ∷ bs) e =
        ground (arith, e, find_block-write_block p old bytes bs)

    -- `owning` in the domain of malloc, when there is memory.
    owning-malloc :
        (src : Buffer) (h : Heap) (fresh : List ℕ)
        → system (size_in_bytes src) h.next ≡ some fresh
        → owning system src.data_dtype src.dims malloc h
          ≡ returns (
            record {
              data_dtype = src.data_dtype;
              dims = src.dims;
              memory = view (some h.next) (size_in_bytes src) malloc;
            },
            record { next = h.next + 1; blocks = (h.next, fresh) ∷ h.blocks },
          )
    unfolding owning allocate alloc allocated construct move_construct moved size_in_bytes view
    owning-malloc src h fresh e = rw e refl

    -- The heap after an allocation.
    abbrev grown : Heap → List ℕ → Heap
    grown h fresh = record { next = h.next + 1; blocks = (h.next, fresh) ∷ h.blocks }

    find_block-new :
        (n q : ℕ) (fresh bytes : List ℕ) (bs : List (ℕ × List ℕ))
        → Below n bs
        → find_block q bs ≡ some bytes
        → (find_block n ((n, fresh) ∷ bs) ≡ some fresh)
          × (find_block q ((n, fresh) ∷ bs) ≡ some bytes)
    find_block-new n q fresh bytes bs v e = ground (arith, find_block-Below n bs v)

    -- A sending by a sender that returns.
    send-returns :
        (dst src : Buffer) (h h' : Heap) (s d : Domain)
        (sender : Buffer → Buffer → Heap → Outcome Heap)
        → src.memory.domain ≡ some s
        → dst.memory.domain ≡ some d
        → senders (domain_id s ++ (codes ">" ++ domain_id d)) ≡ some sender
        → sender dst src h ≡ returns h'
        → send system others senders dst src h
          ≡ returns (dst, h', begins Hook.send ∷ ends Hook.send ∷ [])
    unfolding send send_by
    send-returns dst src h h' s d sender at_s at_d known run =
        let by = λ (o : Option (Buffer → Buffer → Heap → Outcome Heap)).
          send_by system others senders o dst src h in
        let id = λ (s d : Domain). senders (domain_id s ++ (codes ">" ++ domain_id d)) in
        ap
          (λ o.
            between Hook.send
              (with_domain o (λ s. with_domain dst.memory.domain (λ d. by (id s d)))))
          at_s
        ∙ ap (λ o. between Hook.send (with_domain o (λ d. by (id s d)))) at_d
        ∙ ap (λ o. between Hook.send (by o)) known
        ∙ ap (λ (r : Outcome Heap). between Hook.send (silent (r >>= λ h'. returns (dst, h')))) run

    -- The sending of a buffer to a new one.
    pub send-Presents :
        (src : Buffer) (h : Heap) (s : Domain) (q : ℕ) (bytes fresh : List ℕ)
        (sender : Buffer → Buffer → Heap → Outcome Heap)
        → IsValid h
        → src.memory.domain ≡ some s
        → src.memory.data_ptr ≡ some q
        → find_block q h.blocks ≡ some bytes
        → length fresh ≡ length bytes
        → system (size_in_bytes src) h.next ≡ some fresh
        → senders (domain_id s ++ (codes ">" ++ domain_id malloc)) ≡ some sender
        → Sends sender
        → (out : Buffer) × (h' : Heap) × (events : List Event) × (followed
              (allocate_like system others senders malloc src h)
              (λ out h'. send system others senders out src h')
            ≡ returns (out, h', events))
          × Presents out h' src h
          × IsWithin malloc out
    unfolding allocate_like view
    send-Presents src h s q bytes fresh sender valid at_s at_q at_bytes same room known sends =
        let new : Buffer = record {
          data_dtype = src.data_dtype;
          dims = src.dims;
          memory = view (some h.next) (size_in_bytes src) malloc;
        } in
        let blocks = find_block-new h.next q fresh bytes h.blocks valid at_bytes in
        let written =
          sends new src (grown h fresh) h.next fresh bytes refl blocks.0 (rw at_q blocks.1) same in
        let held = find_block-write_block h.next fresh bytes (grown h fresh).blocks blocks.0 in
        (
          new,
          record (grown h fresh) { blocks = write_block h.next bytes (grown h fresh).blocks },
          begins Hook.alloc ∷ ends Hook.alloc ∷ begins Hook.send ∷ ends Hook.send ∷ [],
          rw (owning-malloc src h fresh room) (
              ap (continued (begins Hook.alloc ∷ ends Hook.alloc ∷ []))
                (send-returns new src (grown h fresh) _ s malloc sender at_s refl known written)),
          (refl, refl, held ∙ sym (rw at_q at_bytes)),
          (malloc, refl, is_accessible_self malloc),
        )

    pub with_domain-some :
        {A : Type 0} (o : Option Domain) (s : Domain) (f : Domain → Run A)
        → o ≡ some s
        → with_domain o f ≡ f s
    with_domain-some o s f e = ap (λ o. with_domain o f) e

    between-returns :
        (hook : Hook) (r : Run Buffer) (out : Buffer) (h : Heap) (events : List Event)
        → r ≡ returns (out, h, events)
        → between hook r ≡ returns (out, h, begins hook ∷ events ++ (ends hook ∷ []))
    between-returns hook r out h events e = ap (between hook) e

    -- What a run of `readable_in` gives.
    abbrev pub ReadableIn : Buffer → Heap → Run Buffer → Type 0
    ReadableIn src h r =
        (out : Buffer) × (h' : Heap) × (events : List Event) × (r ≡ returns (out, h', events))
        × Presents out h' src h
        × IsWithin malloc out

    between-ReadableIn :
        (hook : Hook) (src : Buffer) (h : Heap) (r : Run Buffer)
        → ReadableIn src h r
        → ReadableIn src h (between hook r)
    between-ReadableIn hook src h r (out, h', events, e, p, w) = (
      out,
      h',
      begins hook ∷ events ++ (ends hook ∷ []),
      between-returns hook r out h' events e,
      p,
      w,
    )

    -- A buffer with data, in a domain `s`, that points at a block is made readable in the domain of
    -- malloc: the result has its type, dimensions and bytes, and its domain can be accessed from that
    -- of malloc. Either `s` can be accessed from there already, or `std::malloc` finds room of the
    -- length of the block, and a sender is registered that copies the bytes. No block has the next
    -- number.
    pub make_readable_in-Presents :
        (src : Buffer) (h : Heap) (s : Domain) (q : ℕ) (bytes fresh : List ℕ)
        (sender : Buffer → Buffer → Heap → Outcome Heap)
        → IsValid h
        → has_data src ≡ true
        → src.memory.domain ≡ some s
        → src.memory.data_ptr ≡ some q
        → find_block q h.blocks ≡ some bytes
        → (is_accessible others malloc s ≡ true)
          ⊎ ((length fresh ≡ length bytes)
              × (system (size_in_bytes src) h.next ≡ some fresh)
              × (senders (domain_id s ++ (codes ">" ++ domain_id malloc)) ≡ some sender)
              × Sends sender)
        → ReadableIn src h (make_readable_in system others senders malloc src h)
    unfolding make_readable_in readable_in view
    make_readable_in-Presents src h s q bytes fresh sender valid full at_s at_q at_bytes room =
        subst (ReadableIn src h) (sym (with_domain-some src.memory.domain s _ at_s)) (
          between-ReadableIn Hook.make_readable_domain src h _
            (elim (Bool-cases (is_accessible others malloc s)) [
              | inl near ↦ rw near (
                  between-ReadableIn Hook.view src h _ (
                    record {
                      data_dtype = src.data_dtype;
                      dims = src.dims;
                      memory =
                          view src.memory.data_ptr (size_in_bytes src) (nonowning (domain_id s));
                    },
                    h,
                    [],
                    ap (unchanged h) (nonowning_of-view src s at_s),
                    (refl, refl, refl),
                    (nonowning (domain_id s), refl, is_accessible-nonowning malloc s near),
                  ))
              | inr far ↦
                  rw (far, full)
                    (elim room [
                      | inl near ↦ cc
                      | inr (same, found, known, sends) ↦
                          send-Presents src h s q bytes fresh sender valid at_s at_q at_bytes same
                            found known sends
                    ])
            ]))
