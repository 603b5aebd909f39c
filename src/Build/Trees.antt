-- ===== src/Build/Trees.antt =====
-- What a tree of nodes that is made for an element looks like.
use arclaunch.Prelude.{
  ℕ, zero, suc, ◌≡◌, ◌≤◌, ◌<◌, ◌∙◌, Bool, true, false, ◌||◌, Option, none, some, [], arith,
}
use arclaunch.Text.{Text, text_eq}
use arclaunch.NameMap.{NameMap, find_name}
use arclaunch.Element.{
  Element, Elements, plain, file, executable, script, group, launch, sequence_node, socket_node,
  nil, cons,
}
use arclaunch.Command
use arclaunch.World.{World, Derived, SocketNode}
use arclaunch.Context.{name_of, sequence_order}
use arclaunch.Os.{Net}
use arclaunch.Memory.{idle_program, idle_launch, idle_sequence}

unfoldable pub occurs : Text → Elements → Bool
unfolding name_of
occurs k nil = false
occurs k (cons e es) = text_eq (name_of e) k || occurs k es

abbrev pub Choose : Bool → Type 0 → Type 0 → Type 0
Choose true A B = A
Choose false A B = B

pub Choose-map : {A B C D : Type 0} (b : Bool) → (A → C) → (B → D) → Choose b A B → Choose b C D
Choose-map true f g h = f h
Choose-map false f g h = g h

-- An element whose nodes can be made: each has a class, nests less deep than the depth, each script
-- has the attributes that are read, and each socket node an address.
unfoldable mutual
  pub IsValid : {K : Type 0} → Net K → ℕ → Element → Type 0
  IsValid net zero e = ⊥
  IsValid net (suc depth) (plain name) = ⊥
  IsValid net (suc depth) (file name ps) = ⊥
  IsValid net (suc depth) (group name es) = ⊥
  IsValid net (suc depth) (executable name x) = Unit {0}
  IsValid net (suc depth) (script name x) =
      (c : Command.ExecutableNode) × (Command.script_node x ≡ some c)
  IsValid net (suc depth) (launch name es links externals) = AreValid net depth es
  IsValid net (suc depth) (sequence_node name es repeats) = AreValid net depth es
  IsValid net (suc depth) (socket_node name es links externals sockets service address) =
      AreValid net depth es × ((res : _) × (net.getaddrinfo address service ≡ some res))

  pub AreValid : {K : Type 0} → Net K → ℕ → Elements → Type 0
  AreValid net depth nil = Unit {0}
  AreValid net depth (cons e es) = IsValid net depth e × AreValid net depth es

-- Neither the element nor one below it is a socket node.
unfoldable mutual
  pub HasNoSocket : Element → Type 0
  HasNoSocket (plain name) = Unit {0}
  HasNoSocket (file name ps) = Unit {0}
  HasNoSocket (executable name x) = Unit {0}
  HasNoSocket (script name x) = Unit {0}
  HasNoSocket (group name es) = HaveNoSocket es
  HasNoSocket (launch name es links externals) = HaveNoSocket es
  HasNoSocket (sequence_node name es repeats) = HaveNoSocket es
  HasNoSocket (socket_node name es links externals sockets service address) = ⊥

  pub HaveNoSocket : Elements → Type 0
  HaveNoSocket nil = Unit {0}
  HaveNoSocket (cons e es) = HasNoSocket e × HaveNoSocket es

-- The node `p`, whose address is below `next`, and the nodes under it are as the element says, and
-- none of them has run. A name leads to the node of the last member that has it.
unfoldable mutual
  pub Built : {K : Type 0} → ℕ → World K → ℕ → Element → Type 0
  Built next w p (executable name x) =
      (p < next) × (w.derived p ≡ some (idle_program (Command.executable_node x)))
  Built next w p (script name x) =
      (p < next)
      × (c : Command.ExecutableNode) × (Command.script_node x ≡ some c)
      × (w.derived p ≡ some (idle_program c))
  Built next w p (launch name es links externals) =
      (p < next)
      × (nodes : NameMap) × (w.derived p ≡ some (idle_launch nodes links externals))
      × ((k : Text) → Leads next w k (find_name k nodes) es)
  Built next w p (sequence_node name es repeats) =
      (p < next)
      × (nodes : NameMap) × (w.derived p ≡ some (idle_sequence nodes (sequence_order es)))
      × ((k : Text) → Leads next w k (find_name k nodes) es)
  Built next w p (socket_node name es links externals sockets service address) =
      (p < next)
      × (nodes : NameMap) × (s : SocketNode) × (w.derived p
          ≡ some (idle_launch nodes links externals))
      × (w.sockets p ≡ some s)
      × (s.seq ≡ sockets)
      × (s.fds ≡ [])
      × ((k : Text) → Leads next w k (find_name k nodes) es)
  Built next w p (plain name) = ⊥
  Built next w p (file name ps) = ⊥
  Built next w p (group name es) = ⊥

  pub Leads : {K : Type 0} → ℕ → World K → Text → Option ℕ → Elements → Type 0
  Leads next w k o nil = o ≡ none
  Leads next w k o (cons e es) =
      Choose (occurs k es) (Leads next w k o es)
        (Choose (text_eq (name_of e) k) ((p : ℕ) × (o ≡ some p) × Built next w p e) (o ≡ none))

abbrev pub Named : {K : Type 0} → ℕ → World K → NameMap → Elements → Type 0
Named next w nodes es = (k : Text) → Leads next w k (find_name k nodes) es

-- The nodes below `next` are the same.
pub record SameBelow {K : Type 0} (next : ℕ) (w v : World K) : Type 0 where
  pub derived : (q : ℕ) → q < next → v.derived q ≡ w.derived q
  pub sockets : (q : ℕ) → q < next → v.sockets q ≡ w.sockets q

-- What stands in the nodes below `next` is still there.
pub record KeepsBelow {K : Type 0} (next : ℕ) (w v : World K) : Type 0 where
  pub derived : (q : ℕ) (d : Derived) → q < next → w.derived q ≡ some d → v.derived q ≡ some d
  pub sockets : (q : ℕ) (s : SocketNode) → q < next → w.sockets q ≡ some s → v.sockets q ≡ some s

pub SameBelow-KeepsBelow :
    {K : Type 0} (next : ℕ) (w v : World K) → SameBelow next w v → KeepsBelow next w v
SameBelow-KeepsBelow next w v h = record {
  derived = λ q d lt e. h.derived q lt ∙ e;
  sockets = λ q s lt e. h.sockets q lt ∙ e;
}

-- A tree stays when nodes are made elsewhere.
module _ {K : Type 0} {next next' : ℕ} (w v : World K) (more : next ≤ next')
    (same : KeepsBelow next w v) where
  mutual
    unfolding Built occurs

    pub stays : (p : ℕ) (e : Element) → Built next w p e → Built next' v p e
    stays p (executable name x) (lt, d) = (omega arith, same.derived p _ lt d)
    stays p (script name x) (lt, c, is, d) = (omega arith, c, is, same.derived p _ lt d)
    stays p (launch name es links externals) (lt, nodes, d, h) =
        (omega arith, nodes, same.derived p _ lt d, λ k. stays_all k _ es (h k))
    stays p (sequence_node name es repeats) (lt, nodes, d, h) =
        (omega arith, nodes, same.derived p _ lt d, λ k. stays_all k _ es (h k))
    stays p (socket_node name es links externals sockets service address)
          (lt, nodes, s, d, f, q, g, h) =
        (
          omega arith,
          nodes,
          s,
          same.derived p _ lt d,
          same.sockets p s lt f,
          q,
          g,
          λ k. stays_all k _ es (h k),
        )
    stays p (plain name) h = absurd h
    stays p (file name ps) h = absurd h
    stays p (group name es) h = absurd h

    pub stays_all :
        (k : Text) (o : Option ℕ) (es : Elements) → Leads next w k o es → Leads next' v k o es
    stays_all k o nil h = h
    stays_all k o (cons e es) h =
        Choose-map (occurs k es) (stays_all k o es)
          (Choose-map (text_eq (name_of e) k) (λ (p, f, b). (p, f, stays p e b)) (λ z. z)) h
