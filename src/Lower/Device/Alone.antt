-- ===== src/Lower/Device/Alone.antt =====
-- internal/lower/diverge.go: what one thread does in a part that not every thread enters: it meets nobody and
-- changes only what varies.
use simtgo.Base.{ℕ, ◌≤◌, Bool, true, false, List, some, ltb, if◌then◌else◌, ◌≡◌, refl}
use simtgo.Lower.Syntax.{Expr, Over, Stmt, Clauses, count}
use simtgo.Lower.Vary.{mark, mark_clauses, mark_if, bound, bound_clauses}
use simtgo.Lower.Diverge.{BarrierUse}
use simtgo.Lower.Diverge.Quiet.{quiet, quiet_clauses}
use simtgo.Lower.Device.{
  Machine, Thread, State, Signal, next, Loop, rounds, caught, exec, exec_clauses, set_range,
}
use simtgo.Lower.Device.Loops.{rounds-keeps, at_end, caught-keeps}
use simtgo.Lower.Device.Silence.{exec-Silent, set_range-Silent, clauses-Silent}
use simtgo.Lower.Device.Control.{KeptEnv, exec-Kept, clauses-Kept, set_range-Kept}
use simtgo.Lower.Device.Meet.{Alone}

module _ (m : Machine) (uses : ℕ → BarrierUse) (slice : ℕ → Bool) (vary : List ℕ)
    (t1 t2 : Thread m) where
  -- What one thread did, part by part.
  module _ (t : Thread m) (n fuel : ℕ) where
    pub stmt-Alone :
        (s : Stmt) (st st' : State m) (g : Signal)
        → quiet uses s ≡ true
        → bound s ≤ n
        → mark slice s true vary ≡ vary
        → exec m uses slice t fuel s st ≡ some (g, st')
        → Alone m uses slice vary t1 t2 t st st'
    stmt-Alone s st st' g q b h e = record {
      same_trace = exec-Silent m uses slice t st.trace fuel s st g st' q refl e;
      kept = exec-Kept m uses slice vary t st.env n fuel s st g st' b h (λ x p r. refl) e;
    }

    pub branch-Alone :
        (test : Bool) (body els : Stmt) (st st' : State m) (g : Signal)
        → quiet uses body ≡ true
        → quiet uses els ≡ true
        → bound body ≤ n
        → bound els ≤ n
        → mark slice body true vary ≡ vary
        → mark slice els true vary ≡ vary
        → (if test then exec m uses slice t fuel body st else exec m uses slice t fuel els st)
          ≡ some (g, st')
        → Alone m uses slice vary t1 t2 t st st'
    branch-Alone true body els st st' g q q' b b' h h' e = stmt-Alone body st st' g q b h e
    branch-Alone false body els st st' g q q' b b' h h' e = stmt-Alone els st st' g q' b' h' e

    abbrev pub range_loop : Over → Expr → Expr → Expr → Stmt → ℕ → Loop m
    range_loop o k e x body count = record {
      test = λ i st. ltb i count;
      look = λ st. st;
      before = set_range m uses slice t o k e x;
      body = exec m uses slice t fuel body;
      post = λ st. some (next, st);
    }

    pub range-Alone :
        (o : Over) (k e x : Expr) (body : Stmt) (count : ℕ) (st st' : State m) (g : Signal)
        → quiet uses body ≡ true
        → bound body ≤ n
        → mark_if slice true k vary ≡ vary
        → mark_if slice true e vary ≡ vary
        → mark slice body true vary ≡ vary
        → rounds m fuel (range_loop o k e x body count) 0 st ≡ some (g, st')
        → Alone m uses slice vary t1 t2 t st st'
    range-Alone o k e x body count st st' g q b hk he h r = record {
      same_trace =
          rounds-keeps m (λ s. s.trace ≡ st.trace) (range_loop o k e x body count)
            (record {
              look = λ s y. y;
              before = λ i s y. set_range-Silent m uses slice t st.trace o k e x i s y;
              body = λ s g1 s' y z. exec-Silent m uses slice t st.trace fuel body s g1 s' q y z;
              post = λ s g1 s' y z. at_end m (λ s. s.trace ≡ st.trace) y z;
            })
            fuel 0 st g st' refl r;
      kept =
          rounds-keeps m (λ s. KeptEnv m uses slice vary t st.env s.env)
            (range_loop o k e x body count)
            (record {
              look = λ s y. y;
              before = λ i s y. set_range-Kept m uses slice vary t st.env n o k e x i s hk he y;
              body =
                  λ s g1 s' y z. exec-Kept m uses slice vary t st.env n fuel body s g1 s' b h y z;
              post = λ s g1 s' y z. at_end m (λ s. KeptEnv m uses slice vary t st.env s.env) y z;
            })
            fuel 0 st g st' (λ x p r. refl) r;
    }

    pub switch-Alone :
        (cs : Clauses) (v : m.Value) (st st2 st' : State m) (g2 g : Signal)
        → quiet_clauses uses cs ≡ true
        → bound_clauses cs ≤ n
        → mark_clauses slice cs true vary ≡ vary
        → exec_clauses m uses slice t fuel cs v (λ s. some (next, s)) st ≡ some (g2, st2)
        → caught m g2 st2 ≡ some (g, st')
        → Alone m uses slice vary t1 t2 t st st'
    switch-Alone cs v st st2 st' g2 g q b h e e' = record {
      same_trace =
          caught-keeps m (λ s. s.trace ≡ st.trace) g2 st2 g st'
            (clauses-Silent m uses slice t st.trace fuel cs v _ st g2 st2 q
              (λ s g1 s' y z. at_end m (λ s. s.trace ≡ st.trace) y z) refl e)
            e';
      kept =
          caught-keeps m (λ s. KeptEnv m uses slice vary t st.env s.env) g2 st2 g st'
            (clauses-Kept m uses slice vary t st.env n fuel cs v _ st g2 st2 b h
              (λ s g1 s' y z. at_end m (λ s. KeptEnv m uses slice vary t st.env s.env) y z)
              (λ x p r. refl) e)
            e';
    }
