-- ===== src/Os/Calls.antt =====
-- broker/common/ipc: msg_queue.c and socket.c where they make, find and delete queues and sockets;
-- and the passing of a number to another program as an argument.
use sistemas_distribuid.Base.{
  ℕ, ◌-◌, ℤ, minus_one, is_neg, ◌=ℤ◌, pos, if◌then◌else◌, true, false, List, take, print,
}
use sistemas_distribuid.Os.{
  Os, Program, ftok, msgget, msgrcv, msgsnd, msgctl_rmid, socket, bind, listen, accept, connect,
  gethostbyname,
}
use sistemas_distribuid.Os as Os
use sistemas_distribuid.Os.Proc.{Proc, becomes, pure, exit, sys, ◌>>=◌}

-- `int creamsg(int id)`
unfoldable pub creamsg : Os → ℕ → Proc ℤ
creamsg os id = do
  clave ← sys os (ftok id)
  if is_neg clave then pure minus_one else sys os (msgget clave true)

-- `int getmsg(int id)`
unfoldable pub getmsg : Os → ℕ → Proc ℤ
getmsg os id = do
  clave ← sys os (ftok id)
  if is_neg clave then pure minus_one else sys os (msgget clave false)

-- `int rcvmsg(int id, void *msgp, size_t msgsz, long type)`
unfoldable pub rcvmsg : Os → ℤ → Proc ℤ
rcvmsg os id = do r ← sys os (msgrcv id); pure (if r =ℤ minus_one then minus_one else pos 0)

-- `int sendmsg(int id, const void *msgp, size_t msgsz)`, for a message with this field.
unfoldable pub sendmsg : Os → ℤ → ℤ → Proc ℤ
sendmsg os id field = do
  r ← sys os (msgsnd id field)
  pure (if r =ℤ minus_one then minus_one else pos 0)

-- `int delmsg(int id)`
unfoldable pub delmsg : Os → ℤ → Proc ℤ
delmsg os id = sys os (msgctl_rmid id)

-- `int create_client_socket(char* server_ip, int server_port)`. The name that it looks up is a
-- constant of the program; `gethostbyname` is answered -1 for `NULL`.
unfoldable pub create_client_socket : Os → ℕ → Proc ℤ
create_client_socket os server_port = do
  socket_fd ← sys os socket
  if is_neg socket_fd then exit minus_one else do
    server ← sys os gethostbyname
    if is_neg server then exit minus_one else do
      r ← sys os (connect socket_fd server_port)
      if r =ℤ pos 0 then pure socket_fd else exit minus_one

-- `int create_server_socket(int port)`
unfoldable pub create_server_socket : Os → ℕ → Proc ℤ
create_server_socket os port = do
  socket_fd ← sys os socket
  if is_neg socket_fd then pure minus_one else do
    bound ← sys os (bind socket_fd port)
    if is_neg bound then pure minus_one else do
      listening ← sys os (listen socket_fd)
      if is_neg listening then pure minus_one else pure socket_fd

-- `int accept_client(int server_socket)`
unfoldable pub accept_client : Os → ℤ → Proc ℤ
accept_client os server_socket = sys os (accept server_socket)

-- `char str[3]; snprintf(str, 3, "%d", n)`: two characters and the NUL.
unfoldable pub snprintf : ℕ → ℤ → List ℕ
snprintf size n = take (size - 1) (print n)

-- `execl`, which returns only if it fails.
unfoldable pub execl : Os → Program → List (List ℕ) → Proc ℤ
execl os program arguments = do
  r ← sys os (Os.execl program arguments)
  if is_neg r then pure r else λ s. (becomes program, s)
