-- ===== src/SysUtil/Constants.antt =====
-- The constants that `_SysUtilDefineProps` of src/js_sysutil.cpp gives the class, in its order.
use Prim.Native.String.{String}
use text.Mathlib.Text.{◌==◌ as str_eq}
use text.Mathlib.TextEquality.{eq_iff}
use sysjs.Prelude.{
  Bool, List, Option, [], arith, false, if◌then◌else◌, none, refl, some, ℤ, ◌&&◌, ◌||◌, ◌∷◌, ◌≡◌,
}

-- The names of the calls of `INT_PROP`; each value is that of the macro of the same name.
abbrev pub constant_names : List String
constant_names =
    "E2BIG" ∷ "EACCES" ∷ "EADDRINUSE" ∷ "EADDRNOTAVAIL" ∷ "EAFNOSUPPORT" ∷ "EAGAIN" ∷ "EALREADY"
    ∷ "EBADF" ∷ "EBADMSG" ∷ "EBUSY" ∷ "ECANCELED" ∷ "ECHILD" ∷ "ECONNABORTED" ∷ "ECONNREFUSED"
    ∷ "ECONNRESET" ∷ "EDEADLK" ∷ "EDESTADDRREQ" ∷ "EDOM" ∷ "EDQUOT" ∷ "EEXIST" ∷ "EFAULT" ∷ "EFBIG"
    ∷ "EHOSTUNREACH" ∷ "EIDRM" ∷ "EILSEQ" ∷ "EINPROGRESS" ∷ "EINTR" ∷ "EINVAL" ∷ "EIO" ∷ "EISCONN"
    ∷ "EISDIR" ∷ "ELOOP" ∷ "EMFILE" ∷ "EMLINK" ∷ "EMSGSIZE" ∷ "EMULTIHOP" ∷ "ENAMETOOLONG"
    ∷ "ENETDOWN" ∷ "ENETRESET" ∷ "ENETUNREACH" ∷ "ENFILE" ∷ "ENOBUFS" ∷ "ENODATA" ∷ "ENODEV"
    ∷ "ENOENT" ∷ "ENOEXEC" ∷ "ENOLCK" ∷ "ENOLINK" ∷ "ENOMEM" ∷ "ENOMSG" ∷ "ENOPROTOOPT" ∷ "ENOSPC"
    ∷ "ENOSR" ∷ "ENOSTR" ∷ "ENOSYS" ∷ "ENOTCONN" ∷ "ENOTDIR" ∷ "ENOTEMPTY" ∷ "ENOTSOCK" ∷ "ENOTSUP"
    ∷ "ENOTTY" ∷ "ENXIO" ∷ "EOPNOTSUPP" ∷ "EOVERFLOW" ∷ "EPERM" ∷ "EPIPE" ∷ "EPROTO"
    ∷ "EPROTONOSUPPORT" ∷ "EPROTOTYPE" ∷ "ERANGE" ∷ "EROFS" ∷ "ESPIPE" ∷ "ESRCH" ∷ "ESTALE"
    ∷ "ETIMEDOUT" ∷ "ETIME" ∷ "ETXTBSY" ∷ "EWOULDBLOCK" ∷ "EXDEV" ∷ "O_APPEND" ∷ "O_CREAT"
    ∷ "O_DIRECTORY" ∷ "O_EXCL" ∷ "O_EXCL" ∷ "O_NOCTTY" ∷ "O_NOFOLLOW" ∷ "O_RDONLY" ∷ "O_RDWR"
    ∷ "O_SYNC" ∷ "O_TRUNC" ∷ "O_WRONLY" ∷ "S_IFBLK" ∷ "S_IFCHR" ∷ "S_IFDIR" ∷ "S_IFIFO" ∷ "S_IFLNK"
    ∷ "S_IFMT" ∷ "S_IFREG" ∷ "S_IFSOCK" ∷ "SIGABRT" ∷ "SIGALRM" ∷ "SIGBUS" ∷ "SIGCHLD" ∷ "SIGCONT"
    ∷ "SIGFPE" ∷ "SIGHUP" ∷ "SIGILL" ∷ "SIGINT" ∷ "SIGIO" ∷ "SIGIOT" ∷ "SIGKILL" ∷ "SIGPIPE"
    ∷ "SIGPOLL" ∷ "SIGPROF" ∷ "SIGPWR" ∷ "SIGQUIT" ∷ "SIGSEGV" ∷ "SIGSTKFLT" ∷ "SIGSTOP" ∷ "SIGSYS"
    ∷ "SIGTERM" ∷ "SIGTRAP" ∷ "SIGTSTP" ∷ "SIGTTIN" ∷ "SIGTTOU" ∷ "SIGUNUSED" ∷ "SIGURG" ∷ "SIGUSR1"
    ∷ "SIGUSR2" ∷ "SIGVTALRM" ∷ "SIGWINCH" ∷ "SIGXCPU" ∷ "SIGXFSZ" ∷ "S_IRGRP" ∷ "S_IROTH"
    ∷ "S_IRUSR" ∷ "S_IRWXG" ∷ "S_IRWXO" ∷ "S_IRWXU" ∷ "S_IWGRP" ∷ "S_IWOTH" ∷ "S_IWUSR" ∷ "S_IXGRP"
    ∷ "S_IXOTH" ∷ "S_IXUSR" ∷ []

-- The properties of an object, the newest first.
abbrev pub Props : Type 0
Props = List (String × ℤ)

pub lookup : String → Props → Option ℤ
lookup name [] = none
lookup name ((k, v) ∷ props) = if str_eq k name then some v else lookup name props

-- `ADD_INT_CONST` for each name: where `JS_SetProperty` fails, a message is printed and the next
-- constant follows. `macro` is a name's value in the system's headers.
define_all : (String → ℤ) → (String → Bool) → List String → Props → Props
define_all macro sets [] props = props
define_all macro sets (name ∷ names) props =
    define_all macro sets names (if sets name then (name, macro name) ∷ props else props)

pub define_props : (String → ℤ) → (String → Bool) → Props → Props
unfolding define_all
define_props macro sets props = define_all macro sets constant_names props

pub listed : String → List String → Bool
listed name [] = false
listed name (k ∷ names) = str_eq k name || listed name names

lookup-define_all :
    (macro : String → ℤ) (sets : String → Bool) (names : List String) (props : Props)
    (name : String)
    → lookup name (define_all macro sets names props)
      ≡ (if listed name names && sets name then some (macro name) else lookup name props)
unfolding define_all lookup listed
lookup-define_all macro sets [] props name = refl
lookup-define_all macro sets (k ∷ names) props name =
    let ih =
      lookup-define_all macro sets names (if sets k then (k, macro k) ∷ props else props) name in
    ground (arith, ih, eq_iff k name)

-- After `define_props` a listed constant that the engine accepts has the value of its macro, also
-- where it is listed twice, and every other property is as it was.
pub lookup-define_props :
    (macro : String → ℤ) (sets : String → Bool) (props : Props) (name : String)
    → lookup name (define_props macro sets props)
      ≡ (if listed name constant_names && sets name then some (macro name) else lookup name props)
unfolding define_props
lookup-define_props macro sets props name = lookup-define_all macro sets constant_names props name
