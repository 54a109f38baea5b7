-- ===== src/Jmx.antt =====
-- jmxutils.py: names of mbeans, the command lines of the Jolokia agent, and `JolokiaAgent`, which
-- reads, writes and runs what a node offers over JMX.
use cassandra_dtest.Base.{
  ℕ, ◌≡◌, ◌↔◌, refl, Bool, ◌==◌, List, [], ◌∷◌, ◌++◌, Option, none, some, Outcome, returned, raised,
  Action, map, if◌then◌else◌, All, ap, ap₂, ◌∙◌, ◌>>=◌, ◌>>◌, pure, arith,
}
use cassandra_dtest.Text.{Text, text, join, split}
use cassandra_dtest.Text.Laws.{any-Free, Free-append, Free, split-join}

-- `os.path.join` of parts that are not absolute, on a platform whose separator is a slash.
abbrev path_join : List Text → Text
path_join ps = join (text "/") ps

abbrev jolokia_jar : Text
jolokia_jar = text "lib/jolokia-jvm-1.2.3-agent.jar"

-- The arguments of `common.replace_in_file`: the file, the pattern of a line and what the line becomes.
pub record LineEdit : Type 0 where
  pub file : Text
  pub pattern : Text
  pub replacement : Text

-- `remove_perf_disable_shared_mem`, by the names of the configuration files in ccm.
unfoldable pub remove_perf_disable_shared_mem : Bool → Text → Text → Text → LineEdit
unfolding join
remove_perf_disable_shared_mem on_windows cassandra_win_env cassandra_env conf_dir = record {
  file = path_join (conf_dir ∷ (if on_windows then cassandra_win_env else cassandra_env) ∷ []);
  pattern = text "PerfDisableSharedMem";
  replacement = [];
}

-- `jolokia_classpath`, by `JAVA_HOME` and whether the platform is Windows.
unfoldable pub jolokia_classpath : Bool → Option Text → Text
unfolding join
jolokia_classpath on_windows none = jolokia_jar
jolokia_classpath on_windows (some home) =
    join (if on_windows then text ";" else text ":")
      (path_join (home ∷ text "lib" ∷ text "tools.jar" ∷ []) ∷ jolokia_jar ∷ [])

-- `java_bin`
unfoldable pub java_bin : Option Text → Text
unfolding join
java_bin none = text "java"
java_bin (some home) = path_join (home ∷ text "bin" ∷ text "java" ∷ [])

-- `'{k}={v}'`
abbrev pub property : Text × Text → Text
property (k, v) = k ++ (text "=" ++ v)

abbrev pub head_of : Text → Text → Text
head_of domain_part type = text "org.apache.cassandra." ++ (domain_part ++ (text ":type=" ++ type))

-- `make_mbean`; the other properties come in the order of the dictionary.
unfoldable pub make_mbean : Text → Text → List (Text × Text) → Text
unfolding join
make_mbean domain_part type [] = head_of domain_part type
make_mbean domain_part type (kv ∷ kvs) =
    head_of domain_part type ++ (text "," ++ join (text ",") (map property (kv ∷ kvs)))

abbrev comma : ℕ → Bool
comma c = c == 44

-- The properties of a name can be told apart: neither keys nor values hold a comma.
abbrev pub NoComma : Text × Text → Type 0
NoComma kv = Free comma kv.0 × Free comma kv.1

property-Free : (kv : Text × Text) → NoComma kv → Free comma (property kv)
property-Free (k, v) h = Free-append comma k (text "=" ++ v) h.0 (refl, h.1)

properties-Free : (kvs : List (Text × Text)) → All NoComma kvs → All (Free comma) (map property kvs)
properties-Free [] h = tt
properties-Free (kv ∷ kvs) h = (property-Free kv h.0, properties-Free kvs h.1)

head_of-Free :
    (domain_part type : Text)
    → Free comma domain_part
    → Free comma type
    → Free comma (head_of domain_part type)
head_of-Free domain_part type hp ht =
    Free-append comma (text "org.apache.cassandra.") (domain_part ++ (text ":type=" ++ type)) domain
      (Free-append comma domain_part (text ":type=" ++ type) hp
        (Free-append comma (text ":type=") type (any-Free comma (text ":type=") refl) ht))
  where
    domain : Free comma (text "org.apache.cassandra.")
    domain = any-Free comma (text "org.apache.cassandra.") refl

-- A property as the server reads it: the key in front of the first `=`, and the value behind it.
abbrev pub before_equals : Text → Text
before_equals [] = []
before_equals (c ∷ s) = let rest = before_equals s in if c == 61 then [] else c ∷ rest

abbrev pub behind_equals : Text → Text
behind_equals [] = []
behind_equals (c ∷ s) = let rest = behind_equals s in if c == 61 then s else rest

abbrev pub read_property : Text → Text × Text
read_property s = (before_equals s, behind_equals s)

abbrev equals : ℕ → Bool
equals c = c == 61

-- Neither part holds a comma, nor the key a `=`.
abbrev pub IsProperty : Text × Text → Type 0
IsProperty kv = NoComma kv × Free equals kv.0

before-property : (k v : Text) → Free equals k → before_equals (property (k, v)) ≡ k
before-property [] v h = refl
before-property (c ∷ k) v h = rw (h.0, before-property k v h.1) refl

behind-property : (k v : Text) → Free equals k → behind_equals (property (k, v)) ≡ v
behind-property [] v h = refl
behind-property (c ∷ k) v h = rw (h.0, behind-property k v h.1) refl

read-properties :
    (kvs : List (Text × Text)) → All IsProperty kvs → map read_property (map property kvs) ≡ kvs
read-properties [] h = refl
read-properties ((k, v) ∷ kvs) h =
    ap₂ (λ p r. p ∷ r) (ap₂ (λ x y. (x, y)) (before-property k v h.0.1) (behind-property k v h.0.1))
      (read-properties kvs h.1)

commas_free : (kvs : List (Text × Text)) → All IsProperty kvs → All NoComma kvs
commas_free [] h = tt
commas_free (kv ∷ kvs) h = (h.0.0, commas_free kvs h.1)

-- A name, read back: the domain with the type in front of the first comma, and the properties.
abbrev pub read_mbean : List Text → Option (Text × List (Text × Text))
read_mbean [] = none
read_mbean (head ∷ rest) = some (head, map read_property rest)

-- An mbean's name, split at its commas, begins with the domain and the type, as JMX writes them; and
-- what follows, each split at its first `=`, is every property that was given, key and value, once and
-- in order. No part may hold a comma, and no key a `=`.
pub read_mbean-make_mbean :
    (domain_part type : Text) (kvs : List (Text × Text))
    → Free comma domain_part
    → Free comma type
    → All IsProperty kvs
    → read_mbean (split 44 (make_mbean domain_part type kvs))
      ≡ some (text "org.apache.cassandra." ++ (domain_part ++ (text ":type=" ++ type)), kvs)
unfolding make_mbean join
read_mbean-make_mbean domain_part type [] hp ht h =
    ap read_mbean
      (split-join 44 (head_of domain_part type) [] (head_of-Free domain_part type hp ht, tt))
read_mbean-make_mbean domain_part type (kv ∷ kvs) hp ht h =
    ap read_mbean (
      split-join 44 (head_of domain_part type) (map property (kv ∷ kvs)) (
        head_of-Free domain_part type hp ht,
        properties-Free (kv ∷ kvs) (commas_free (kv ∷ kvs) h),
      ))
    ∙ ap (λ r. some (head_of domain_part type, r)) (read-properties (kv ∷ kvs) h)

-- The exceptions: a process that exits with an error, an HTTP status, a status in the answer.
pub data JmxError : Type 0 where
  process_failed : JmxError
  http_status : ℕ → JmxError
  agent_status : ℕ → JmxError
  unreachable : JmxError
  body_failed : ℕ → JmxError

-- A request: its type, its mbean, its attribute or operation, and what goes with it.
pub data Request (V : Type 0) : Type 0 where
  read : Text → Text → Option Text → Request V
  write : Text → Text → V → Option Text → Request V
  exec : Text → Text → List V → Request V

-- The answer of the agent in its JSON: a status and a value.
pub record Answer (V : Type 0) : Type 0 where
  pub status : ℕ
  pub value : V

-- The process that runs the agent, and the agent's web server, on a state of their own.
module _ {S V : Type 0} (check_output : List Text → Action S JmxError (Unit {0}))
    (urlopen : Text → Request V → Action S JmxError (ℕ × Answer V)) (java_home : Option Text)
    (on_windows : Bool) (address pid : Text) where
  -- The arguments that `start` and `stop` share.
  abbrev launcher : List Text → List Text
  launcher rest =
      java_bin java_home
      ∷ text "-cp"
      ∷ jolokia_classpath on_windows java_home
      ∷ text "org.jolokia.jvmagent.client.AgentLauncher"
      ∷ rest

  -- `start`
  unfoldable pub start_agent : Action S JmxError (Unit {0})
  unfolding java_bin jolokia_classpath
  start_agent = check_output (launcher (text "--host" ∷ address ∷ text "start" ∷ pid ∷ []))

  -- `stop`
  unfoldable pub stop_agent : Action S JmxError (Unit {0})
  unfolding java_bin jolokia_classpath
  stop_agent = check_output (launcher (text "stop" ∷ pid ∷ []))

  abbrev pub judge : ℕ × Answer V → Outcome JmxError (Answer V)
  judge (code, a) =
      if code == 200
      then (if a.status == 200 then returned a else raised (agent_status a.status))
      else raised (http_status code)

  -- `_query`
  unfoldable pub query : Request V → Action S JmxError (Answer V)
  query body =
      urlopen (text "http://" ++ (address ++ text ":8778/jolokia/")) body >>= λ r s. (judge r, s)

  -- `if path:`: an empty path is left out of the request.
  abbrev pub given : Option Text → Option Text
  given none = none
  given (some []) = none
  given (some (c ∷ cs)) = some (c ∷ cs)

  -- `read_attribute`
  unfoldable pub read_attribute : Text → Text → Option Text → Action S JmxError V
  unfolding query
  read_attribute mbean attribute path =
      query (read mbean attribute (given path)) >>= λ a. pure a.value

  -- `write_attribute`
  unfoldable pub write_attribute : Text → Text → V → Option Text → Action S JmxError (Unit {0})
  unfolding query
  write_attribute mbean attribute v path =
      query (write mbean attribute v (given path)) >>= λ a. pure tt

  -- `execute_method`: no arguments are an empty list.
  unfoldable pub execute_method : Text → Text → Option (List V) → Action S JmxError V
  unfolding query
  execute_method mbean operation arguments =
      query (exec mbean operation (elim arguments [ none ↦ [] | some vs ↦ vs ])) >>= λ a.
      pure a.value

  -- `__exit__`: an exception of `stop` takes the place of the body's, which is not swallowed.
  abbrev pub leave :
      {A : Type 0} → Outcome JmxError A → Outcome JmxError (Unit {0}) × S → Outcome JmxError A × S
  leave r (returned _, s) = (r, s)
  leave r (raised e, s) = (raised e, s)

  -- `with JolokiaAgent(node) as jmx: body`
  unfoldable pub with_agent : {A : Type 0} → Action S JmxError A → Action S JmxError A
  unfolding stop_agent start_agent
  with_agent body = start_agent >> λ s. let (r, t) = body s in leave r (stop_agent t)

  -- A query returns an answer exactly when the server was reached and both statuses are 200.
  pub query_iff :
      (body : Request V) (s t : S) (a : Answer V)
      → (query body s ≡ (returned a, t)) ↔ (
          (urlopen (text "http://" ++ (address ++ text ":8778/jolokia/")) body s
            ≡ (returned (200, a), t))
          × (a.status ≡ 200))
  unfolding query
  query_iff body s t a = go (urlopen (text "http://" ++ (address ++ text ":8778/jolokia/")) body s)
    where
      judged :
          (code : ℕ) (b : Answer V) (u : S)
          → ◌≡◌ {A = Outcome JmxError (Answer V) × S} (judge (code, b), u) (returned a, t) ↔ (
              ◌≡◌ {A = Outcome JmxError (ℕ × Answer V) × S}
                (returned (code, b), u)
                (returned (200, a), t)
              × (a.status ≡ 200))
      judged code b u = (λ h. (ground arith, ground arith), λ h. ground arith)

      go :
          (p : Outcome JmxError (ℕ × Answer V) × S)
          → ((elim p.0 as (λ o. Outcome JmxError (Answer V) × S) [
            | returned r ↦ (judge r, p.1)
            | raised e ↦ (raised e, p.1)
          ])
              ≡ (returned a, t))
            ↔ ((p ≡ (returned (200, a), t)) × (a.status ≡ 200))
      go (returned (code, b), u) = judged code b u
      go (raised e, u) = (λ h. cc, λ h. cc)
