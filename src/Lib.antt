-- ===== src/Lib.antt =====
-- A model of a small distributed operating system in C: a memory server (UMV), a kernel with a
-- scheduler, CPUs that run programs of the language AnSISOP, and the client that sends a program.
-- They are processes that talk over sockets with the messages of sockets_lib.
--
-- The parts and their files:
--   Base         numbers, `int32_t`, lists, byte arrays and `memcpy`, for all the parts. A call that
--                the C standard gives no meaning (a null pointer, an access outside an object) is
--                the value `fault` of `Outcome`, but for four accesses that are named below.
--   Mensajes     the records and the types of message of sockets_lib/sockets_lib.h.
--   Sockets      sockets_lib/sockets_lib.c: `men_serealizer_*`, `men_deserealizer_*`,
--                `socket_send_*` and `socket_recv_*` for the four kinds of message. A connection is
--                the list of the bytes that the other side sends before it closes it; the four bytes
--                of a length are taken to arrive together, and `send` to take all it is given.
--   Umv          UMV/UMV.c. `Umv.Estado` has its globals; `Umv.Espacio` the search for a free place
--                (`buscar_espacio_mem_prin`); `Umv.Segmentos` the creation, compaction and
--                destruction of segments; `Umv.Bytes` the accesses of a process; `Umv.Consola` the
--                orders of the console (`crearConsola`); `Umv.Sesion` the rounds of the threads
--                `admin_conec_kernel` and `admin_conec_cpu`, and, in `Umv.Sesion.Pasos`, their
--                interleavings. Each operation of the threads holds `mutex_list_seg` from its first
--                access to its last, so that a round is one step. An order of the console is taken
--                for one step too, though `operacion_memoria` looks for its segment with no mutex.
--                `Umv.Conexion` has the beginning of `main` and a round of `admin_conecciones`.
--   Kernel       kernel/kernel.c. `Kernel.Estado` has its globals, with the five queues; `Kernel.Colas`
--                the searches in them, which rotate a queue; `Kernel.Cpus` the CPUs and the ends of a
--                turn; `Kernel.Servicios` semaphores, shared variables, devices, and the dispatch
--                `administrar_men_cpus`; `Kernel.Planificador` a round of each of `manejador_new_ready`,
--                `manejador_ready_exec`, `manejador_exit` and `manejador_IO`, and
--                `cambiar_multiprog`; `Kernel.Configuracion` the state that `levantar_config` makes and
--                the letters of the menu that change it; `Kernel.Programas` the loading of a script
--                and the end of a program; `Kernel.Conexion` the handshakes, and `Kernel.Seleccion`
--                a round of `plp` and of `pcp` over the sockets that `select` reports.
--                `Kernel.Invariante` relates the queues, the CPUs and the semaphores, and its
--                children follow that relation through every round. A round is one step: the
--                semaphores that its thread waits on, and its critical section. A null pointer that
--                is pushed into a queue counts as a fault at once.
--   Cpu          CPU/cpu.c. `Cpu.Estado` has its globals and its messages; `Cpu.Contexto` the end of a
--                program and the dictionary of the variables of a context (`regenerar_dicc_var`);
--                `Cpu.Variables` the primitives for variables, `Cpu.Llamadas` those for jumps and
--                calls, `Cpu.Servicios` those that ask the kernel; `Cpu.Primitiva` the tables of
--                primitives; `Cpu.Turno` the loop of `main`; `Cpu.Conexion` the handshakes.
--                `Cpu.Pila` says what the UMV answers for the stack, `Cpu.Contexto.Marco` where a
--                context lies in it, and `Cpu.Segura` what no step of a CPU changes.
--   Programa     programa/programa.c: the script, the handshake and the loop over the messages.
--   Sistema      several programs together. The kernel between a CPU and a client: what a program
--                prints, a blocked process, a shared variable, and the end of a quantum. The kernel and
--                the UMV: the loading of a script, whose answers are read from the rounds that serve
--                what is sent (`Sistema.Servicio`), and a process that leaves EXIT. And the handshakes.
--   Pruebas      concrete data, and each property applied to them.
--
-- Numbers: an `int32_t` is an integer, and its sums wrap at 32 bits where the code adds; a byte is a
-- natural number. A loop of `buscar_espacio_mem_prin` goes over as many bytes as lie between its
-- index and the next segment, and that is the number of rounds it is given; the loop of
-- `destruirSegmentos` takes at most one round for each segment, and the searches of the kernel's queues
-- as many as the queue is long. The loops of the CPU over variables and over a quantum are given the
-- count that they go up to, and that of the client one round more than bytes can come. All are proved
-- enough.
--
-- Four accesses that the C standard gives no meaning are no `fault` here, because the code makes them on
-- ordinary runs, and its behaviour there is what the machine does: the bytes that `compactar` copies
-- from its own pointer on (`pila`), the three that `definirVariable` sends past its block of two
-- (`tras_clave`), the one that `main` of programa.c writes past `script`, and those that the message
-- `SOL_BYTES` of a CPU serialises from a block of no bytes: `enviar_men_cpu_umv` hands the message over
-- as it was made, with no `socket_send_cpu_umv`. The first two are arguments, and a theorem that needs
-- enough of those bytes says so.
--
-- What the kernel receives after a message of a CPU is `Recepcion`: each reception gives a message or
-- fails, as when the CPU closes the connection in between. `llegan` makes one of messages that come
-- whole (`Siguientes`). In a round of `plp` and `pcp` the messages are received from the bytes of the
-- sockets; the handlers `administrar_*` and `ingresar_new_cpu` are given what was received, and the
-- answers of the UMV to a script (`Respuestas`) are taken to come, with a text where there is a number.
--
-- A CPU and the UMV: a message of the CPU is a round of the thread that serves it, and the other threads
-- of the UMV do no round during a turn of this model (`Umv.Sesion.Pasos` has their interleavings);
-- `entrada` is what the kernel sends to the CPU and `salida` what the CPU sends to it. What stands
-- after a block that is sent too long, and a variable that nobody wrote, are arguments. A block that
-- was freed is not told from one that was not.
--
-- Taken from outside: `list_sort`, `string_itoa` and the containers of the commons library, `rand`,
-- `malloc`, `realloc`, `atoi`, the parser's `metadata_desde_literal`, `metadata_buscar_etiqueta`
-- and `analizadorLinea`, `string_trim`, the bytes of the stack that `compactar` copies by mistake, and
-- what others send. They are arguments.
-- Left out: the drawings of memory on the UMV's console and the lists of the kernel's menu, the log
-- files, the parsing of the configuration, the creation of sockets and threads, and
-- the waits (`usleep`).
pub mod Base
pub mod Mensajes
pub mod Sockets
pub mod Umv
pub mod Kernel
pub mod Cpu
pub mod Programa
pub mod Sistema
pub mod Pruebas
