-- ===== src/Ports/Table/Layout.antt =====
-- The places of the ports in the queue of kernel/middleware: `pok_port_create` and what it calls.
use pok_lab.Common.{
  ℕ, zero, suc, ◌+◌, ◌-◌, ◌≤◌, ◌<◌, ◌≡◌, ◌≢◌, refl, sym, subst, ap, ◌∙◌, ◌⊎◌, inl, inr, true, false,
  not, List, arith, ltb, u32, u32_mod, Bool-cases, ℕ_discrete, update_at, update_off,
}
use pok_lab.Types.{Errno, ok}
use pok_lab.Ports.{Kind, queueing, sampling, no_kind, Direction, Port, pok_own_port}
use pok_lab.Ports.Table.{
  Deployment, State, opened, open_port, create_found, create_kind, pok_port_create, port_max_size,
  is_known_direction, pok_port_queueing_id, pok_port_sampling_id, same_name, same_kind, id_from,
}

-- The bytes of the queue that are taken.
abbrev pub used : State → ℕ
used s = s.queue_size - s.available_size

abbrev pub end_of : Port → ℕ
end_of p = p.index + p.length

-- No two ports that are ready share a byte of the queue, and none has one that is not taken.
pub record IsLaid (s : State) : Type 0 where
  pub small : s.queue_size < u32_mod
  pub fits : s.available_size ≤ s.queue_size
  pub within : (i : ℕ) → (s.ports i).is_ready ≡ true → end_of (s.ports i) ≤ used s
  pub apart :
      (i j : ℕ)
      → i ≢ j
      → (s.ports i).is_ready ≡ true
      → (s.ports j).is_ready ≡ true
      → (end_of (s.ports i) ≤ (s.ports j).index) ⊎ (end_of (s.ports j) ≤ (s.ports i).index)

-- The port `id` is a new one of the current partition behind all bytes that were taken.
pub record Opens (d : Deployment) (s : State) (n : ℕ) (way : Direction) (kind : Kind) (id : ℕ)
    (s' : State) : Type 0 where
  pub owned : pok_own_port d.nb_ports d.owners s.kernel.current_partition id ≡ true
  pub was_closed : (s.ports id).is_ready ≡ false
  pub is_ready : (s'.ports id).is_ready ≡ true
  pub index : (s'.ports id).index ≡ used s
  pub length : (s'.ports id).length ≡ n
  pub direction : (s'.ports id).direction ≡ way
  pub kind_of : (s'.ports id).kind ≡ kind
  pub partition : (s'.ports id).partition ≡ s.kernel.current_partition
  pub taken : used s' ≡ used s + n
  pub others : (j : ℕ) → j ≢ id → s'.ports j ≡ s.ports j
  pub laid : IsLaid s'

-- The state and the status of a creation that changes nothing.
abbrev pub Refuses : State → State × ℕ × Errno → Type 0
Refuses s (s', id, e) = (s' ≡ s) × (e ≢ ok)

abbrev pub Creates : Deployment → State → List ℕ → ℕ → Direction → Kind → State × ℕ × Errno → Type 0
Creates d s name n way kind (s', id, e) =
    (e ≡ ok)
    × (id < d.nb_ports)
    × (same_name name (d.names id) ≡ true)
    × (same_kind (d.kinds id) kind ≡ true)
    × Opens d s n way kind id s'

module _ (d : Deployment) (s : State) (n : ℕ) (way : Direction) (kind : Kind) (laid : IsLaid s)
    (room : n ≤ s.available_size) where
  index_of_open : u32 (s.queue_size + u32_mod - s.available_size) ≡ used s
  index_of_open = omega (arith, laid.small, laid.fits)

  abbrev open_state : ℕ → State
  open_state gid = open_port s gid n way kind

  open_ports :
      (gid : ℕ)
      → (open_state gid).ports gid
        ≡ opened
            (u32 (s.queue_size + u32_mod - s.available_size))
            s.kernel.current_partition
            n
            way
            kind
            (s.ports gid)
  open_ports gid = update_at s.ports gid _

  open_index : (gid : ℕ) → ((open_state gid).ports gid).index ≡ used s
  open_index gid = ap (λ (p : Port). p.index) (open_ports gid) ∙ index_of_open

  open_length : (gid : ℕ) → ((open_state gid).ports gid).length ≡ n
  open_length gid = ap (λ (p : Port). p.length) (open_ports gid)

  open_used : (gid : ℕ) → used (open_state gid) ≡ used s + n
  open_used gid = omega (arith, laid.small, laid.fits, room)

  open-others : (gid j : ℕ) → j ≢ gid → (open_state gid).ports j ≡ s.ports j
  open-others gid j other = update_off s.ports gid j _ other

  was_ready :
      (gid j : ℕ)
      → j ≢ gid
      → ((open_state gid).ports j).is_ready ≡ true
      → (s.ports j).is_ready ≡ true
  was_ready gid j other ready =
      ap (λ (p : Port). p.is_ready) (sym (open-others gid j other)) ∙ ready

  -- A port that was ready before ends where the new one begins, or earlier.
  behind :
      (gid j : ℕ)
      → j ≢ gid
      → ((open_state gid).ports j).is_ready ≡ true
      → end_of ((open_state gid).ports j) ≤ used s
  behind gid j other ready =
      subst (λ p. end_of p ≤ used s) (sym (open-others gid j other))
        (laid.within j (was_ready gid j other ready))

  open-IsLaid : (gid : ℕ) → IsLaid (open_state gid)
  open-IsLaid gid = record {
    small = laid.small;
    fits = omega (arith, laid.small, laid.fits, room);
    within = λ i ready. elim (ℕ_discrete i gid) [
      | yes here ↦
          subst (λ x. end_of ((open_state gid).ports x) ≤ used (open_state gid)) (sym here)
            (omega (arith, open_index gid, open_length gid, open_used gid))
      | no away ↦ omega (arith, behind gid i away ready, open_used gid)
    ];
    apart = λ i j differ ready_i ready_j. elim (ℕ_discrete i gid) [
      | yes here ↦ inr (
          omega (
            arith,
            behind gid j (λ e. differ (here ∙ sym e)) ready_j,
            ap (λ x. ((open_state gid).ports x).index) here,
            open_index gid,
          ))
      | no away ↦ elim (ℕ_discrete j gid) [
        | yes there ↦ inl (
            omega (
              arith,
              behind gid i away ready_i,
              ap (λ x. ((open_state gid).ports x).index) there,
              open_index gid,
            ))
        | no off ↦
            subst
              (λ p.
                (end_of p ≤ ((open_state gid).ports j).index)
                ⊎ (end_of ((open_state gid).ports j) ≤ p.index))
              (sym (open-others gid i away))
              (subst (λ q. (end_of (s.ports i) ≤ q.index) ⊎ (end_of q ≤ (s.ports i).index))
                (sym (open-others gid j off))
                (laid.apart i j differ (was_ready gid i away ready_i)
                  (was_ready gid j off ready_j)))
      ]
    ];
  }

  open-Opens :
      (gid : ℕ)
      → pok_own_port d.nb_ports d.owners s.kernel.current_partition gid ≡ true
      → (s.ports gid).is_ready ≡ false
      → Opens d s n way kind gid (open_state gid)
  open-Opens gid owned closed = record {
    owned = owned;
    was_closed = closed;
    is_ready = ap (λ (p : Port). p.is_ready) (open_ports gid);
    index = open_index gid;
    length = open_length gid;
    direction = ap (λ (p : Port). p.direction) (open_ports gid);
    kind_of = ap (λ (p : Port). p.kind) (open_ports gid);
    partition = ap (λ (p : Port). p.partition) (open_ports gid);
    taken = open_used gid;
    others = open-others gid;
    laid = open-IsLaid gid;
  }

-- A search gives a port of the deployment that has the name and the kind, or an error.
abbrev Found : Kind → Deployment → List ℕ → ℕ → Errno ⊎ ℕ → Type 0
Found kind d name top (inl e) = e ≢ ok
Found kind d name top (inr i) =
    (i < top) × (same_name name (d.names i) ≡ true) × (same_kind (d.kinds i) kind ≡ true)

id_from-Found :
    (kind : Kind) (d : Deployment) (partition : ℕ) (name : List ℕ) (n i top : ℕ)
    → i + n ≡ top
    → Found kind d name top (id_from kind d partition name n i)
unfolding id_from
id_from-Found kind d partition name zero i top count = λ e. cc
id_from-Found kind d partition name (suc n) i top count =
    elim (Bool-cases (same_name name (d.names i))) [
      | inr other ↦ rw other (id_from-Found kind d partition name n (i + 1) top (omega arith))
      | inl named ↦ elim (Bool-cases (same_kind (d.kinds i) kind)) [
        | inr other ↦
            rw (named, other) (id_from-Found kind d partition name n (i + 1) top (omega arith))
        | inl like ↦ elim (Bool-cases (pok_own_port d.nb_ports d.owners partition i)) [
          | inl own ↦ rw (named, like, own) (omega arith, named, like)
          | inr foreign ↦ rw (named, like, foreign) (λ e. cc)
        ]
      ]
    ]

-- What a creation does once the kind is known.
create_found-cases :
    (d : Deployment) (s : State) (name : List ℕ) (n : ℕ) (way : Direction) (kind : Kind) (id : ℕ)
    (r : Errno ⊎ ℕ)
    → IsLaid s
    → n ≤ s.available_size
    → Found kind d name d.nb_ports r
    → Refuses s (create_found d s n way kind id r)
      ⊎ Creates d s name n way kind (create_found d s n way kind id r)
unfolding create_found
create_found-cases d s name n way kind id (inl e) laid room found = inl (refl, found)
create_found-cases d s name n way kind id (inr gid) laid room found =
    elim (Bool-cases (pok_own_port d.nb_ports d.owners s.kernel.current_partition gid)) [
      | inr foreign ↦ rw foreign (inl (refl, λ e. cc))
      | inl own ↦ elim (Bool-cases (s.ports gid).is_ready) [
        | inl ready ↦ rw (own, ready) (inl (refl, λ e. cc))
        | inr closed ↦
            rw (own, closed)
              (inr (
                refl,
                found.0,
                found.1,
                found.2,
                open-Opens d s n way kind laid room gid own closed,
              ))
      ]
    ]

create_kind-cases :
    (d : Deployment) (s : State) (name : List ℕ) (n : ℕ) (way : Direction) (kind : Kind) (id : ℕ)
    → IsLaid s
    → n ≤ s.available_size
    → Refuses s (create_kind d s name n way kind id)
      ⊎ Creates d s name n way kind (create_kind d s name n way kind id)
unfolding create_kind pok_port_queueing_id pok_port_sampling_id
create_kind-cases d s name n way queueing id laid room =
    create_found-cases d s name n way queueing id _ laid room (
      id_from-Found queueing d s.kernel.current_partition name d.nb_ports 0 d.nb_ports
        (omega arith))
create_kind-cases d s name n way sampling id laid room =
    create_found-cases d s name n way sampling id _ laid room (
      id_from-Found sampling d s.kernel.current_partition name d.nb_ports 0 d.nb_ports
        (omega arith))
create_kind-cases d s name n way no_kind id laid room = inl (refl, λ e. cc)

-- In a layout in which no two ports share a byte of the queue, a creation with another status than
-- POK_ERRNO_OK leaves the state as it is. With that status it has opened a port that was not open,
-- whose name and kind are the ones asked for, and which belongs to the current partition: its bytes begin
-- where those that were taken end, all other ports are as before, and again no two share a byte.
pub pok_port_create_lem :
    (d : Deployment) (s : State) (name : List ℕ) (n : ℕ) (way : Direction) (kind : Kind) (id : ℕ)
    → IsLaid s
    → Refuses s (pok_port_create d s name n way kind id)
      ⊎ Creates d s name n way kind (pok_port_create d s name n way kind id)
unfolding pok_port_create
pok_port_create_lem d s name n way kind id laid = elim (Bool-cases (ltb port_max_size n)) [
  | inl long ↦ rw long (inl (refl, λ e. cc))
  | inr short ↦ elim (Bool-cases (ltb s.available_size n)) [
    | inl much ↦ rw (short, much) (inl (refl, λ e. cc))
    | inr fits ↦ elim (Bool-cases (not (is_known_direction way))) [
      | inl unknown ↦ rw (short, fits, unknown) (inl (refl, λ e. cc))
      | inr known ↦
          rw (short, fits, known)
            (create_kind-cases d s name n way kind id laid (ground (arith, fits)))
    ]
  ]
]
