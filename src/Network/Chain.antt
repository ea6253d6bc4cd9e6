-- ===== src/Network/Chain.antt =====
-- Doubly linked chains, as the layers, neurons, weights and client nodes are kept, and the two
-- ways in which the code puts a new node at the end of one.
pub mod Linked
pub mod Built
use esp32_fl.Base.{
  ℕ, zero, suc, Option, none, some, List, [], ◌∷◌, ◌++◌, foldl, get_elem?, set, length, ◌>>=◌,
}

-- A node is named by its place in the order of allocation, and `none` is the null pointer.
abbrev pub Ptr : Type 0
Ptr = Option ℕ

pub record Cell (A : Type 0) : Type 0 where
  pub value : A
  pub previous : Ptr
  pub next : Ptr

-- The nodes that were allocated for a chain, oldest first, and the two pointers of its owner.
pub record Chain (A : Type 0) : Type 0 where
  pub cells : List (Cell A)
  pub first : Ptr
  pub last : Ptr

module _ {A : Type 0} where
  abbrev pub empty_chain : Chain A
  empty_chain = record { cells = []; first = none; last = none }

  abbrev pub cell : A → Ptr → Ptr → Cell A
  cell a p n = record { value = a; previous = p; next = n }

  abbrev pub with_next : Ptr → Cell A → Cell A
  with_next n c = record c { next = n }

  -- `p->next = n`; nothing happens at a null pointer, which the code does not write through
  abbrev pub set_next : Ptr → Ptr → List (Cell A) → List (Cell A)
  set_next none n cs = cs
  set_next (some i) n cs = elim (get_elem? cs i) [ none ↦ cs | some c ↦ set cs i (with_next n c) ]

  -- The insertion of `InitializeNeuralNetWork`, `JSONToFederatedLearning` and the registration of
  -- nodes: the new node behind the last one, if there is one.
  unfoldable pub append_tail : Chain A → A → Chain A
  append_tail c a = elim c.last [
    | none ↦ record {
      cells = c.cells ++ (cell a none none ∷ []);
      first = some (length c.cells);
      last = some (length c.cells);
    }
    | some l ↦ record {
      cells = set_next (some l) (some (length c.cells)) c.cells ++ (cell a (some l) none ∷ []);
      first = c.first;
      last = some (length c.cells);
    }
  ]

  -- The insertion of `CopyNeuron`, `CopyLayer` and `CopyNeuralNetwork`. Where the chain is empty
  -- the new node is made its first and its last one; the statements behind that `if` then run in
  -- every case, and link the new node to what is the last one by now.
  pub append_copy : Chain A → A → Chain A
  append_copy c a =
      let new : Ptr = some (length c.cells) in
      let first : Ptr = elim c.first [ none ↦ new | some f ↦ some f ] in
      let last : Ptr = elim c.first [ none ↦ new | some _ ↦ c.last ] in
      record {
        cells = set_next last new (c.cells ++ (cell a last none ∷ []));
        first = first;
        last = new;
      }

  -- What a loop `while (p != NULL) { …; p = p->next; }` meets. `none` is a loop that is still
  -- running when its fuel is gone.
  pub walk : ℕ → List (Cell A) → Ptr → Option (List A)
  walk fuel cs none = some []
  walk zero cs (some i) = none
  walk (suc fuel) cs (some i) = elim (get_elem? cs i) [
    | none ↦ none
    | some c ↦ do rest ← walk fuel cs c.next; some (c.value ∷ rest)
  ]

  -- One step more than there are nodes.
  pub read_chain : Chain A → Option (List A)
  unfolding walk
  read_chain c = walk (suc (length c.cells)) c.cells c.first

  -- A chain that is built from `xs`, in order.
  pub build_tail : List A → Chain A
  unfolding append_tail
  build_tail xs = foldl append_tail empty_chain xs

  pub build_copy : List A → Chain A
  unfolding append_copy
  build_copy xs = foldl append_copy empty_chain xs
