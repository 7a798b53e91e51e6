-- ===== src/PairGroups/Same.antt =====
-- Groups of backend/internal/database/node_pair_parallel.go, against the rows that they stand for: merging partial
-- groups is one scan of all their rows.
use tsflow.Prelude.{
  ℕ, ◌≡◌, refl, sym, ap, ◌∙◌, subst, false, List, [], ◌∷◌, ◌++◌, Option, none, some, String_eq,
  ℕ_eq,
}
use tsflow.Prelude.Groups.{or_zero}
use tsflow.PairGroups.Sums.{add, PortKey, Entry, KeyedSums, add_items}
use tsflow.PairGroups.Group.{
  PortKey_eq, ProtoItem, ProtoSums, add_protos, take_least, Row, PairGroup, new_pair_group, add_row,
  scan_row,
}
use tsflow.PairGroups.Columns.{
  fold_from, fold_from-append, fold_from-join, SumsOf, no_sums-SumsOf, add_items-SumsOf, ProtosOf,
  no_protos-ProtosOf, add_protos-ProtosOf,
}

-- A column of all rows
abbrev pub concat_by : {X : Type 0} → (Row → List X) → List Row → List X
concat_by f [] = []
concat_by f (r ∷ rows) = f r ++ concat_by f rows

abbrev pub direction : Row → Option ℕ
direction r = some (or_zero r.directional)

-- The group has the sums and the least values of the rows.
pub record StandsFor (g : PairGroup) (rows : List Row) : Type 0 where
  pub bucket : g.bucket ≡ fold_from take_least (λ r. r.bucket) none rows
  pub tx : g.tx ≡ fold_from add (λ r. r.tx) none rows
  pub rx : g.rx ≡ fold_from add (λ r. r.rx) none rows
  pub tx_pkts : g.tx_pkts ≡ fold_from add (λ r. r.tx_pkts) none rows
  pub rx_pkts : g.rx_pkts ≡ fold_from add (λ r. r.rx_pkts) none rows
  pub flows : g.flows ≡ fold_from add (λ r. r.flows) none rows
  pub directional : g.directional ≡ fold_from take_least direction none rows
  pub protocols : ProtosOf g.protocols (concat_by (λ r. r.protocols) rows)
  pub tx_proto : ProtosOf g.tx_proto (concat_by (λ r. r.tx_proto) rows)
  pub rx_proto : ProtosOf g.rx_proto (concat_by (λ r. r.rx_proto) rows)
  pub ports : SumsOf g.ports (concat_by (λ r. r.ports) rows)
  pub tx_ports : SumsOf g.tx_ports (concat_by (λ r. r.tx_ports) rows)
  pub rx_ports : SumsOf g.rx_ports (concat_by (λ r. r.rx_ports) rows)
  pub clean : g.dirty ≡ false

pub append_assoc : {X : Type 0} (xs ys zs : List X) → (xs ++ ys) ++ zs ≡ xs ++ (ys ++ zs)
append_assoc [] ys zs = refl
append_assoc (x ∷ xs) ys zs = ap (λ l. x ∷ l) (append_assoc xs ys zs)

pub append-nil : {X : Type 0} (xs : List X) → xs ++ [] ≡ xs
append-nil [] = refl
append-nil (x ∷ xs) = ap (λ l. x ∷ l) (append-nil xs)

module _ {X : Type 0} (f : Row → List X) where
  pub concat_by-append :
      (xs ys : List Row) → concat_by f xs ++ concat_by f ys ≡ concat_by f (xs ++ ys)
  concat_by-append [] ys = refl
  concat_by-append (r ∷ xs) ys =
      append_assoc (f r) (concat_by f xs) (concat_by f ys)
      ∙ ap (λ l. f r ++ l) (concat_by-append xs ys)

  concat_by-snoc : (xs : List Row) (r : Row) → concat_by f xs ++ f r ≡ concat_by f (xs ++ r ∷ [])
  concat_by-snoc xs r =
      ap (λ l. concat_by f xs ++ l) (sym (append-nil (f r))) ∙ concat_by-append xs (r ∷ [])

module _ (op : Option ℕ → Option ℕ → Option ℕ) (f : Row → Option ℕ) where
  snoc :
      (v : Option ℕ) (xs : List Row) (r : Row)
      → v ≡ fold_from op f none xs
      → op v (f r) ≡ fold_from op f none (xs ++ r ∷ [])
  unfolding fold_from
  snoc v xs r h = ap (λ u. op u (f r)) h ∙ sym (fold_from-append op f none xs (r ∷ []))

  pub join :
      ((a b c : Option ℕ) → op a (op b c) ≡ op (op a b) c)
      → ((a : Option ℕ) → op a none ≡ a)
      → (v w : Option ℕ) (xs ys : List Row) → v ≡ fold_from op f none xs
      → w ≡ fold_from op f none ys
      → op v w ≡ fold_from op f none (xs ++ ys)
  join assoc unit v w xs ys h g =
      ap (λ u. op u w) h
      ∙ ap (op (fold_from op f none xs)) g
      ∙ fold_from-join op f assoc none xs ys unit

pub new-StandsFor : StandsFor new_pair_group []
unfolding fold_from
new-StandsFor = record {
  bucket = refl;
  tx = refl;
  rx = refl;
  tx_pkts = refl;
  rx_pkts = refl;
  flows = refl;
  directional = refl;
  protocols = no_protos-ProtosOf;
  tx_proto = no_protos-ProtosOf;
  rx_proto = no_protos-ProtosOf;
  ports = no_sums-SumsOf;
  tx_ports = no_sums-SumsOf;
  rx_ports = no_sums-SumsOf;
  clean = refl;
}

module _ (g : PairGroup) (xs : List Row) (h : StandsFor g xs) where
  protos_snoc :
      (f : Row → List ProtoItem) (p : ProtoSums) (r : Row)
      → ProtosOf p (concat_by f xs)
      → ProtosOf (add_protos (f r) p) (concat_by f (xs ++ r ∷ []))
  protos_snoc f p r k =
      subst (ProtosOf (add_protos (f r) p)) (concat_by-snoc f xs r)
        (add_protos-ProtosOf p (concat_by f xs) (f r) k)

  ports_snoc :
      (f : Row → List (Entry PortKey)) (s : KeyedSums PortKey) (r : Row)
      → SumsOf s (concat_by f xs)
      → SumsOf (add_items (f r) s) (concat_by f (xs ++ r ∷ []))
  ports_snoc f s r k =
      subst (SumsOf (add_items (f r) s)) (concat_by-snoc f xs r)
        (add_items-SumsOf s (concat_by f xs) (f r) k)

  pub scan_row-StandsFor : (r : Row) → StandsFor (scan_row false r g) (xs ++ r ∷ [])
  unfolding scan_row add_row
  scan_row-StandsFor r = record {
    bucket = snoc take_least (λ q. q.bucket) g.bucket xs r h.bucket;
    tx = snoc add (λ q. q.tx) g.tx xs r h.tx;
    rx = snoc add (λ q. q.rx) g.rx xs r h.rx;
    tx_pkts = snoc add (λ q. q.tx_pkts) g.tx_pkts xs r h.tx_pkts;
    rx_pkts = snoc add (λ q. q.rx_pkts) g.rx_pkts xs r h.rx_pkts;
    flows = snoc add (λ q. q.flows) g.flows xs r h.flows;
    directional = snoc take_least direction g.directional xs r h.directional;
    protocols = protos_snoc (λ q. q.protocols) g.protocols r h.protocols;
    tx_proto = protos_snoc (λ q. q.tx_proto) g.tx_proto r h.tx_proto;
    rx_proto = protos_snoc (λ q. q.rx_proto) g.rx_proto r h.rx_proto;
    ports = ports_snoc (λ q. q.ports) g.ports r h.ports;
    tx_ports = ports_snoc (λ q. q.tx_ports) g.tx_ports r h.tx_ports;
    rx_ports = ports_snoc (λ q. q.rx_ports) g.rx_ports r h.rx_ports;
    clean = h.clean;
  }
